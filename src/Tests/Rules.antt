-- ===== src/Tests/Rules.antt =====
-- Runs of tightbeam-handler/src/open_policy.rs, src/enabled.rs and the construction of an exposer.
use tightbeam.Base.{◌*◌, ◌^◌, ◌≡◌, refl, true, false, none, some, List, [], ◌∷◌, same_bytes}
use tightbeam.Policy.{PublicUse, never, opt_in, open_safe}
use tightbeam.Base.Results.{ok, err}
use tightbeam.Router.{
  Services, handler, raw_stream, family, proven_only, Exposer, prove, no_public_use,
}
use tightbeam.Enabled.{Check, load, is_enabled}

-- The file disappears, and later comes back with the service and another.
abbrev gone_and_back : List Check
gone_and_back =
    record { now = 10 ^ 9; metadata = none; names = none }
    ∷ record {
      now = 2 * 10 ^ 9;
      metadata = some (some (record { mtime = 8; len = 4 }));
      names = some ((b'a' ∷ []) ∷ (b'b' ∷ []) ∷ []);
    }
    ∷ []

enabled_again :
    (is_enabled
      (record { now = 0; metadata = some none; names = some [] })
      (b'a' ∷ [])
      (load ((b'a' ∷ []) ∷ []) (some (record { mtime = 7; len = 2 })))).0
    ≡ true
unfolding is_enabled
enabled_again = refl

-- A shell, a download, a file, and a route for proven keys.
abbrev pub four : Services
four =
    record { name = b's' ∷ []; target = handler never; access = family }
    ∷ record { name = b'd' ∷ []; target = handler opt_in; access = family }
    ∷ record { name = b'f' ∷ []; target = raw_stream true; access = family }
    ∷ record { name = b'p' ∷ []; target = handler PublicUse.proven_only; access = proven_only }
    ∷ []

abbrev pub four_exposed : Exposer
four_exposed = record {
  services = four;
  node_open = false;
  public = (b'd' ∷ []) ∷ [];
  public_unsafe = (b'f' ∷ []) ∷ [];
}

pub four_proved : prove four false ((b'd' ∷ []) ∷ []) ((b'f' ∷ []) ∷ []) ≡ ok four_exposed
unfolding prove open_safe same_bytes
four_proved = refl

shell_refused : prove four false ((b's' ∷ []) ∷ []) [] ≡ err no_public_use
unfolding prove open_safe same_bytes
shell_refused = refl
