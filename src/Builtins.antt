-- ===== src/Builtins.antt =====
-- src/builtins.rs and the local dial of src/tunnel.rs: the two handlers that this crate ships, over
-- Grammar and Pump. What a local endpoint is, and what it sends on a connection, is an argument; the
-- platform has unix sockets.
pub mod Reached
pub mod Reflected
use tightbeam.Base.{ℕ, Bool, Option, none, some, List, [], ◌∷◌, ◌++◌, if◌then◌else◌, same_bytes}
use tightbeam.Base.Bytes.{Text}
use tightbeam.Router.Listing.{Metering, metered}
use tightbeam.Grammar.{split_once, tcp_word, unix_word}
use tightbeam.Pump.{
  Copy, copy_from, Half, HalfTurn, half_run, copying, Splice, splice, Outcome, pending, succeeded,
  failed, outcome, Side, splice_run,
}

pub data Endpoint : Type 0 where
  tcp : (host_port : Text) → Endpoint
  unix : (path : Text) → Endpoint

pub data ServeError : Type 0 where
  not_an_endpoint unreached broken : ServeError

abbrev pub endpoint : Option (Text × Text) → Option Endpoint
endpoint none = none
endpoint (some (scheme, rest)) =
    if same_bytes scheme tcp_word
    then some (tcp rest)
    else if same_bytes scheme unix_word
    then some (unix rest)
    else none

-- What a serve has come to: a splice that is under way, or its end.
pub data Serving : Type 0 where
  refused : ServeError → Serving
  running : Splice → Serving
  served : Serving

abbrev pub spliced : Outcome → Splice → Serving
spliced pending s = running s
spliced succeeded s = served
spliced failed s = refused broken

abbrev pub over_local : Option (List ℕ) → List ℕ → List (Side × HalfTurn) → Serving
over_local none peer ts = refused unreached
over_local (some local) peer ts = let s = splice_run ts (splice local peer) in spliced (outcome s) s

module _ (connect : Endpoint → Option (List ℕ)) where
  abbrev pub dialed : Option Endpoint → List ℕ → List (Side × HalfTurn) → Serving
  dialed none peer ts = refused not_an_endpoint
  dialed (some e) peer ts = over_local (connect e) peer ts

  -- `dial_and_splice`, through so many turns of its splice.
  unfoldable pub dial_and_splice : Text → List ℕ → List (Side × HalfTurn) → Serving
  unfolding split_once outcome splice_run
  dial_and_splice addr peer ts = dialed (endpoint (split_once b':' addr)) peer ts

-- `Forward`, and its `serve`
pub record Forward : Type 0 where
  pub addr : Text

unfoldable pub serve_forward :
    (Endpoint → Option (List ℕ)) → Forward → List ℕ → List (Side × HalfTurn) → Serving
unfolding dial_and_splice
serve_forward connect forward peer ts = dial_and_splice connect forward.addr peer ts

-- `Echo::serve`: one copy from the peer to the peer, then the shutdown.
unfoldable pub serve_echo : List ℕ → List HalfTurn → Half
unfolding half_run
serve_echo peer ts = half_run ts (copying (copy_from peer))

abbrev pub echo_metering : Metering
echo_metering = metered
