-- ===== src/Tests/Provisions.antt =====
-- What the commands of the binary do, and the root that a node trusts.
use tightbeam.Base.{
  ℕ, ◌≡◌, ◌≢◌, refl, true, false, ◌&&◌, Option, none, some, [], ◌∷◌, ◌++◌, any, ◌==◌, if◌then◌else◌,
}
use tightbeam.Base.Bytes.{Text}
use tightbeam.Base.Results.{ok}
use tightbeam.Command.{
  Cli, expose, connect, loads_identity, loads_root, binds, dialing_only, discovers, started, runs,
  closes, World, run,
}
use tightbeam.Command.Tidy.{is_bind, is_close, last_of, publishes, over_n0, run-tidy}
use tightbeam.Config.{Files, Found, text, missing, Vars, load_root, write_root}

abbrev connecting : Cli
connecting = record {
  key = some 4;
  peers = (1, 9 ∷ []) ∷ [];
  offline = false;
  bind_addr = none;
  command = connect;
}

abbrev all_well : World
all_well = record {
  identity = true;
  root = true;
  denylist = true;
  bind = true;
  mdns = true;
  sockets = 5 ∷ [];
  body = false;
}

-- The command of a failed body is closed all the same, and its sockets are kept from the network.
connects_unseen : run connecting all_well ≡ (
  loads_identity (some 4)
      ∷ binds dialing_only
      ∷ discovers (record { hints = (1, 9 ∷ []) ∷ []; lan = started [] })
      ∷ runs
      ∷ closes
      ∷ [],
  false,
)
unfolding run
connects_unseen = refl

-- A root that does not load stops the command before it binds.
unprovisioned :
    run (record connecting { command = expose }) (record all_well { root = false })
    ≡ (loads_identity (some 4) ∷ loads_root ∷ [], false)
unfolding run
unprovisioned = refl

run-tidy_example :
    (any is_close (run connecting all_well).0 ≡ any is_bind (run connecting all_well).0 && true)
    × (any is_close (run connecting all_well).0 ≡ true
        → last_of runs (run connecting all_well).0 ≡ closes)
    × (connect ≢ expose → any publishes (run connecting all_well).0 ≡ false)
    × (false ≡ true → any over_n0 (run connecting all_well).0 ≡ false)
run-tidy_example = run-tidy connecting all_well

unfoldable trim_end : Text → Text
trim_end [] = []
trim_end (b ∷ []) = if b == b'\n' then [] else b ∷ []
trim_end (b ∷ c ∷ bs) = b ∷ trim_end (c ∷ bs)

abbrev parse_byte : Text → Option ℕ
parse_byte (b ∷ []) = some b
parse_byte t = none

abbrev shown_byte : ℕ → Text
shown_byte node = node ∷ []

trim_end_shown : (node : ℕ) → parse_byte (trim_end (shown_byte node ++ b'\n' ∷ [])) ≡ some node
unfolding trim_end
trim_end_shown node = refl

-- A disk of one file.
abbrev one_file : Files
one_file = record {
  Disk = Found;
  parent = λ p. none;
  join = λ dir p. dir ++ b'/' ∷ p;
  read = λ d p. d;
  write = λ d p t. (text t, true);
  create_dir_all = λ d p. (d, true);
  trim = trim_end;
  parse = parse_byte;
  show = shown_byte;
  write_done = λ d p t h. refl;
  shown = trim_end_shown;
}

abbrev at_home : Vars
at_home = record { tightbeam_root = none; tightbeam_revoked = none; home = some (b'h' ∷ []) }

written_over : write_root one_file at_home 7 (text (4 ∷ [])) ≡ (text (7 ∷ b'\n' ∷ []), ok tt)
unfolding write_root
written_over = refl

-- A node that was never provisioned trusts no root.
unprovisioned_root : load_root one_file at_home missing ≡ ok none
unfolding load_root
unprovisioned_root = refl
