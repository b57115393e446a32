-- ===== src/Forward.antt =====
-- src/tunnel/connector.rs: the port that a connector forwards. `preflight` is the probe before it, and
-- `PortForward::run` a row of turns of its loop, each the arm of `select!` that was ready. The runtime
-- and the network pick the arms. A local connection is a number, and instants are nanoseconds.
pub mod Carried
pub mod Paced
pub mod Probe
use tightbeam.Base.{
  ℕ, suc, ◌+◌, ◌*◌, ◌^◌, Bool, true, false, not, ◌&&◌, Option, none, some, List, [], ◌∷◌, length,
  ltb, leb, ◌==◌, if◌then◌else◌,
}
use tightbeam.Protocol.Frames.{Details, Refusal}
use tightbeam.Protocol.Request.{Request}
use tightbeam.Connector.{
  Connector, Session, DialError, no_stream, turned_away, Dialed, admitted, fails, Dial, request,
  handshake,
}

abbrev pub max_pipes : ℕ
max_pipes = 128

abbrev pub accept_retry : ℕ
accept_retry = 100 * 10 ^ 6

-- `retry` is the instant that the pause ends.
pub record Forward : Type 0 where
  pub paused : Bool
  pub retry : ℕ
  pub pipes : List ℕ

abbrev pub started : Forward
started = record { paused = false; retry = 0; pipes = [] }

pub data Arm : Type 0 where
  closed : Arm
  retried : Arm
  accepted : (tcp : ℕ) → Arm
  accept_failed : Arm
  -- A pipe that is over, by its end or by an error that is logged.
  finished : (tcp : ℕ) (failed : Bool) → Arm

-- An arm, and when it was ready.
pub record Turn : Type 0 where
  pub now : ℕ
  pub arm : Arm

pub data Loop : Type 0 where
  forwards : Forward → Loop
  connection_lost : Loop

abbrev keep : ℕ → Option (List ℕ) → Option (List ℕ)
keep p none = none
keep p (some ps) = some (p ∷ ps)

-- The pipes without the one that is over.
unfoldable pub without : ℕ → List ℕ → Option (List ℕ)
without tcp [] = none
without tcp (p ∷ ps) = let rest = without tcp ps in if p == tcp then some ps else keep p rest

-- The guard of the accept.
abbrev pub may_accept : Forward → Bool
may_accept f = not f.paused && ltb (length f.pipes) max_pipes

abbrev pub left_with : Forward → Option (List ℕ) → Option Loop
left_with f none = none
left_with f (some pipes) = some (forwards (record f { pipes = pipes }))

-- One turn of the loop; none where the arm cannot be ready.
abbrev pub select : Turn → Arm → Forward → Option Loop
select t closed f = some connection_lost
select t retried f =
    if f.paused && leb f.retry t.now then some (forwards (record f { paused = false })) else none
select t (accepted tcp) f =
    if may_accept f then some (forwards (record f { pipes = tcp ∷ f.pipes })) else none
select t accept_failed f =
    if may_accept f
    then some (forwards (record f { paused = true; retry = t.now + accept_retry }))
    else none
select t (finished tcp failed) f = left_with f (without tcp f.pipes)

abbrev pub turn : Turn → Loop → Option Loop
turn t connection_lost = none
turn t (forwards f) = select t t.arm f

abbrev pub and_then : (Loop → Option Loop) → Option Loop → Option Loop
and_then next none = none
and_then next (some loop) = next loop

-- `PortForward::run`, through so many turns.
unfoldable pub run : List Turn → Loop → Option Loop
run [] loop = some loop
run (t ∷ ts) loop = and_then (run ts) (turn t loop)

-- What `preflight` was given: a session, unless the peer was not reached, and the local port.
pub record Reached : Type 0 where
  pub session : Option Session
  pub binds : Bool

pub data PreflightError (D : Type 0) : Type 0 where
  unreached unbound : PreflightError D
  refused : (dial : ℕ) → Refusal D → PreflightError D
  unopened : DialError D → PreflightError D

pub data Preflight (D : Type 0) : Type 0 where
  stops : PreflightError D → Preflight D
  ready : Session → Request → Preflight D

module _ (api : Details) where
  open api use {Detail}

  -- The probe stream is dropped before the port is bound.
  abbrev pub probed : Connector → Session → Bool → Dialed Detail → Preflight Detail
  probed connector session binds (admitted payload) =
      if binds then ready session (request connector) else stops unbound
  probed connector session binds (Dialed.fails (turned_away refusal)) =
      stops (refused connector.dial refusal)
  probed connector session binds (Dialed.fails (DialError.wrong_peer dial reached)) =
      stops (unopened (DialError.wrong_peer dial reached))
  probed connector session binds (Dialed.fails no_stream) = stops (unopened no_stream)
  probed connector session binds (Dialed.fails (DialError.unwritten e)) =
      stops (unopened (DialError.unwritten e))
  probed connector session binds (Dialed.fails (DialError.unread e)) =
      stops (unopened (DialError.unread e))

  abbrev pub over_session : Connector → Session → List ℕ → Bool → Preflight Detail
  over_session connector session incoming binds =
      if session.opens
      then probed connector session binds
          (handshake api session.security (request connector) incoming).result
      else stops (unopened no_stream)

  -- `Connector::preflight`
  unfoldable pub preflight : Connector → Reached → List ℕ → Preflight Detail
  unfolding request
  preflight connector reached incoming = elim reached.session [
    | none ↦ stops unreached
    | some session ↦ over_session connector session incoming reached.binds
  ]

  -- `forward`: one local connection over a stream of its own.
  unfoldable pub forward : Session → Request → List ℕ → Dial api
  forward session r incoming =
      if session.opens
      then handshake api session.security r incoming
      else record { sent = []; result = Dialed.fails no_stream }
