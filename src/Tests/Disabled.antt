-- ===== src/Tests/Disabled.antt =====
-- A file of disabled services.
use tightbeam.Base.{ℕ, ◌≡◌, ◌≢◌, ◌^◌, refl, false, Option, none, some, List, [], ◌∷◌, map, All}
use tightbeam.Base.Bytes.{Text}
use tightbeam.Base.Results.{ok, err}
use tightbeam.Enabled.{State}
use tightbeam.Enabled.Closed.{answers}
use tightbeam.Enabled.Decode.{unread, contents, load_file, lines, parse_names, FileCheck, as_check}
use tightbeam.Enabled.Listed.{HasLine, listed-disabled}

abbrev unpadded : Text → Text
unpadded [] = []
unpadded (b ∷ bs) = elim bs [ [] ↦ b ∷ [] | (c ∷ cs) ↦ c ∷ cs ]

abbrev any_name : Text → Option Text
any_name text = some text

-- An empty line, and two names with a space before each.
abbrev two_names : Text
two_names = b'\n' ∷ b' ' ∷ b'a' ∷ b'\n' ∷ b' ' ∷ b'b' ∷ b'\n' ∷ []

two_names_read : parse_names unpadded any_name two_names ≡ (b'a' ∷ []) ∷ (b'b' ∷ []) ∷ []
unfolding parse_names
two_names_read = refl

-- The last line needs no end, and an absent file lists nothing.
open_end : lines (b'a' ∷ b'\n' ∷ b'b' ∷ []) ≡ (b'a' ∷ []) ∷ (b'b' ∷ []) ∷ []
unfolding lines
open_end = refl

abbrev at_load : State
at_load = record {
  disabled = (b'a' ∷ []) ∷ (b'b' ∷ []) ∷ [];
  stamp = some (record { mtime = 1; len = 7 });
  last_stat = none;
}

loaded :
    load_file unpadded any_name {Error = ℕ}
      (contents two_names (some (record { mtime = 1; len = 7 })))
    ≡ ok at_load
unfolding load_file parse_names
loaded = refl

unread_fails : load_file unpadded any_name {Error = ℕ} (unread 5) ≡ err 5
unfolding load_file
unread_fails = refl

b_there : ◌≢◌ {A = Text} (b'b' ∷ []) []
b_there e = absurd (cc e)

abbrev b_line : HasLine unpadded any_name (b'b' ∷ []) two_names
b_line = record {
  before = b'\n' ∷ b' ' ∷ b'a' ∷ b'\n' ∷ [];
  line = b' ' ∷ b'b' ∷ [];
  rest = [];
  splits = refl;
  starts = refl;
  one_line = refl;
  not_blank = b_there;
  named = refl;
}

-- The file is gone, then it has changed but cannot be read, then it is read.
abbrev three_checks : List (FileCheck unpadded any_name)
three_checks =
    record { now = 10; metadata = none; text = none }
    ∷ record { now = 10 ^ 9; metadata = some none; text = none }
    ∷ record { now = 10 ^ 10; metadata = some none; text = some two_names }
    ∷ []

listed-disabled_example :
    All
      (λ answer. answer ≡ false)
      (answers (map (as_check unpadded any_name) three_checks) (b'b' ∷ []) at_load)
listed-disabled_example =
    listed-disabled unpadded any_name {Error = ℕ} (b'b' ∷ []) two_names
      (some (record { mtime = 1; len = 7 })) at_load three_checks loaded b_line
      (tt, (tt, (b_line, tt)))
