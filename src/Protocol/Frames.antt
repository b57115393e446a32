-- ===== src/Protocol/Frames.antt =====
-- src/protocol.rs: the strings that both frames are made of, and the refusals that a reply carries.
-- `Refusal` and `RefusalDetail` belong to the transport library. Its refusal classes are the ones
-- that the source names, and `newer` stands for a class that this build has no code for (the type
-- is non-exhaustive). A detail is a parameter, with the bound and the conversion that the library
-- documents.
pub mod Laws
use tightbeam.Base.{
  ℕ, ◌<◌, ◌≤◌, ◌≡◌, Bool, true, false, Option, none, some, List, [], ◌∷◌, ltb, ◌==◌, if◌then◌else◌,
  length,
}
use tightbeam.Base.Bytes.{Text, be16, be_value, is_utf8}
use tightbeam.Base.Stream.{
  Io, IoError, other, Message, string_too_long, detail_too_long, invalid_utf8, invalid_detail,
  unknown_presence, ◌>>=◌, ◌>>◌, return, fail, read_exact, write_all,
}

-- `RefusalDetail`: bounded text.
pub record Details : Type 1 where
  pub Detail : Type 0
  pub max_len : ℕ
  pub as_bytes : Detail → List ℕ
  pub try_from : List ℕ → Option Detail
  pub bounded : Text → Detail
  pub bound : (d : Detail) → length (as_bytes d) ≤ max_len
  pub reads_back : (d : Detail) → try_from (as_bytes d) ≡ some d
  pub fits : max_len < 65536

pub data Refusal (D : Type 0) : Type 0 where
  not_admitted : Refusal D
  bad_request : D → Refusal D
  unavailable : D → Refusal D
  newer : ℕ → Refusal D

-- `u16::try_from(bytes.len())`, then the count and the bytes.
unfoldable pub write_str : Text → Io IoError (Unit {0})
write_str value =
    if ltb (length value) 65536
    then write_all (be16 (length value)) >> write_all value
    else fail (other string_too_long)

checked_utf8 : List ℕ → Io IoError Text
checked_utf8 bytes = if is_utf8 bytes then return bytes else fail (other invalid_utf8)

pub read_str : Io IoError Text
unfolding checked_utf8
read_str = do len ← read_exact 2; bytes ← read_exact (be_value len); checked_utf8 bytes

-- A presence byte, then the string when there is one.
unfoldable pub write_opt : Option Text → Io IoError (Unit {0})
write_opt none = write_all (0 ∷ [])
write_opt (some value) = write_all (1 ∷ []) >> write_str value

-- The byte of a one-byte buffer.
abbrev pub head_byte : List ℕ → ℕ
head_byte [] = 0
head_byte (b ∷ bs) = b

-- `match present[0]`
present : ℕ → Io IoError (Option Text)
present tag =
    if tag == 0
    then return none
    else if tag == 1
    then (read_str >>= λ value. return (some value))
    else fail (other (unknown_presence tag))

pub read_opt : Io IoError (Option Text)
unfolding present
read_opt = do tag ← read_exact 1; present (head_byte tag)

module _ (api : Details) where
  open api use {Detail, max_len, as_bytes, try_from}

  pub write_detail : Detail → Io IoError (Unit {0})
  write_detail detail =
      let bytes = as_bytes detail in
      if ltb (length bytes) 65536
      then write_all (be16 (length bytes)) >> write_all bytes
      else fail (other detail_too_long)

  checked : Option Detail → Io IoError Detail
  checked none = fail (other invalid_detail)
  checked (some detail) = return detail

  -- The claim is refused before a byte behind it is read.
  sized_detail : ℕ → Io IoError Detail
  unfolding checked
  sized_detail len =
      if ltb max_len len
      then fail (other detail_too_long)
      else (read_exact len >>= λ bytes. checked (try_from bytes))

  pub read_detail : Io IoError Detail
  unfolding sized_detail
  read_detail = do len ← read_exact 2; sized_detail (be_value len)
