-- ===== src/Tests/Commands.antt =====
-- The command that publishes services.
use tightbeam.Base.{◌≡◌, refl, true, false, none, List, [], ◌∷◌, ◌++◌, same_bytes}
use tightbeam.Base.Order.{sort_by, leb_text}
use tightbeam.Base.Bytes.{Text}
use tightbeam.Base.Results.{ok, err}
use tightbeam.Security.{proven, announced, peer_proven}
use tightbeam.Policy.{opt_in, open_safe}
use tightbeam.Gate.{no_root, prove_security}
use tightbeam.Grammar.{file_word, echo_word, split_once, extend_parse}
use tightbeam.Router.{
  Exposer, handler, raw_stream, family, raw_source_opened, contains, posture, prove,
}
use tightbeam.Router.Build.{refusal, parse, new, declare, expose}
use tightbeam.Router.Listing.{unmetered, path, names, manifest}
use tightbeam.Expose.{
  ExposeCmd, ungated, build, anyone, banner, warning, path_bytes, Line, parse_names, run_expose,
  expose_unsafe_warning, gate_description,
}
use tightbeam.Expose.Risks.{warned}
use tightbeam.Expose.Warned.{run-warned}
use tightbeam.Tests.Hosts.{small_gates}

abbrev log_entry : Text
log_entry = b'l' ∷ b'=' ∷ file_word ++ b':' ∷ b'x' ∷ []

abbrev echo_entry : Text
echo_entry = b'e' ∷ b'=' ∷ echo_word ++ b':' ∷ []

abbrev open_cmd : ExposeCmd
open_cmd = record {
  services = log_entry ∷ echo_entry ∷ [];
  public = true;
  public_unsafe = (b'l' ∷ []) ∷ [];
  quiet = false;
}

abbrev open_lines : List Line
open_lines =
    banner 3 ((b'e' ∷ []) ∷ (b'l' ∷ []) ∷ []) anyone
    ∷ warning (b'l' ∷ []) (path_bytes (b'x' ∷ []))
    ∷ []

abbrev open_exposer : Exposer
open_exposer = record {
  services =
      record { name = b'e' ∷ []; target = handler opt_in; access = family }
      ∷ record { name = b'l' ∷ []; target = raw_stream true; access = family }
      ∷ [];
  node_open = true;
  public = [];
  public_unsafe = (b'l' ∷ []) ∷ [];
}

open_cmd_runs :
    run_expose small_gates false
      (λ spec. true)
      (λ name. unmetered)
      (λ name. path (b'x' ∷ []))
      open_cmd
      3
      none
      tt
      (record { peer = announced })
    ≡ ok (open_lines, open_exposer)
unfolding run_expose parse new declare expose prove_security manifest names expose_unsafe_warning
    gate_description parse_names sort_by leb_text same_bytes split_once posture extend_parse prove
    open_safe
open_cmd_runs = refl

-- With no root and no `--public`, nothing is printed and nothing runs.
gated_cmd_stops :
    run_expose small_gates false
      (λ spec. true)
      (λ name. unmetered)
      (λ name. path (b'x' ∷ []))
      (record open_cmd { public = false })
      3
      none
      tt
      (record { peer = proven })
    ≡ err (ungated no_root)
unfolding run_expose
gated_cmd_stops = refl

-- A raw stream that `--public` would open, and that is not named.
unnamed_stops :
    run_expose small_gates false
      (λ spec. true)
      (λ name. unmetered)
      (λ name. path (b'x' ∷ []))
      (record open_cmd { public_unsafe = [] })
      3
      none
      tt
      (record { peer = proven })
    ≡ err (build (refusal raw_source_opened))
unfolding run_expose parse new expose same_bytes split_once extend_parse prove open_safe
unnamed_stops = refl

run-warned_example :
    (proper : List Text) × (parse_names small_gates ((b'l' ∷ []) ∷ []) ≡ ok proper)
    × (false ≡ false → (name : Text) → warned name open_lines ≡ contains proper name)
    × (true ≡ false → peer_proven (record { peer = announced }) ≡ true)
run-warned_example =
    run-warned (λ name. unmetered) (λ name. path (b'x' ∷ [])) small_gates false (λ spec. true)
      open_cmd 3 none tt (record { peer = announced }) open_lines open_exposer open_cmd_runs
