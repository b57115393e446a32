-- ===== src/Enabled/Decode.antt =====
-- src/enabled.rs: the file behind the list. `trim` and the parse of a name are the libraries'; the carriage
-- return that `str::lines` takes off a line is among what `trim` takes off. What the file system answers
-- is an argument, and the contents and the stamp are those of one handle.
use tightbeam.Base.{ℕ, Option, none, some, List, [], ◌∷◌, ◌==◌, if◌then◌else◌}
use tightbeam.Base.Bytes.{Text}
use tightbeam.Base.Results.{Result, ok, err, ◌>>=◌}
use tightbeam.Enabled.{Stamp, State, Check, load}

abbrev pub onto_first : ℕ → List Text → List Text
onto_first b [] = (b ∷ []) ∷ []
onto_first b (line ∷ rest) = (b ∷ line) ∷ rest

-- `str::lines`
unfoldable pub lines : Text → List Text
lines [] = []
lines (b ∷ bs) = let rest = lines bs in if b == b'\n' then [] ∷ rest else onto_first b rest

-- `open_readonly`, the read and the metadata of the handle.
pub data FileRead (Error : Type 0) : Type 0 where
  absent : FileRead Error
  unopened unread : Error → FileRead Error
  contents : Text → Option Stamp → FileRead Error

module _ (trim : Text → Text) (parse_service : Text → Option Text) where
  abbrev pub with_name : Option Text → List Text → List Text
  with_name none names = names
  with_name (some name) names = name ∷ names

  abbrev pub with_line : Text → List Text → List Text
  with_line [] names = names
  with_line (b ∷ bs) names = with_name (parse_service (b ∷ bs)) names

  unfoldable pub names_of : List Text → List Text
  names_of [] = []
  names_of (line ∷ rest) = with_line (trim line) (names_of rest)

  unfoldable pub parse_names : Text → List Text
  unfolding lines names_of
  parse_names text = names_of (lines text)

  -- `read_names`
  abbrev pub read_names :
      {Error : Type 0} → FileRead Error → Result Error (List Text × Option Stamp)
  read_names absent = ok ([], none)
  read_names (unopened e) = err e
  read_names (unread e) = err e
  read_names (contents text stamp) = ok (parse_names text, stamp)

  -- `FileDisabledList::load`
  unfoldable pub load_file : {Error : Type 0} → FileRead Error → Result Error State
  load_file file = read_names file >>= λ read. ok (load read.0 read.1)

  -- What a later check finds: the metadata, and the text unless its read fails.
  pub record FileCheck : Type 0 where
    pub now : ℕ
    pub metadata : Option (Option Stamp)
    pub text : Option Text

  abbrev pub decoded : Option Text → Option (List Text)
  decoded none = none
  decoded (some text) = some (parse_names text)

  abbrev pub as_check : FileCheck → Check
  as_check c = record { now = c.now; metadata = c.metadata; names = decoded c.text }
