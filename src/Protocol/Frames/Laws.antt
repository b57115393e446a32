-- ===== src/Protocol/Frames/Laws.antt =====
-- What a reader gets back of a string, an optional string and a detail, and how each read can fail.
use tightbeam.Base.{
  ℕ, ◌<◌, ◌≡◌, refl, ap, true, Option, none, some, List, [], ◌∷◌, ◌++◌, arith, Bool-cases, ltb→lt,
  ltb→le, inl, inr, ltb, lt→ltb, le→ltb, ◌≤◌, length, append_assoc,
}
use tightbeam.Base.Bytes.{Text, be16, be_value-be16, is_utf8}
use tightbeam.Base.Stream.{ok, err, other, string_too_long, read_exact-append}
use tightbeam.Protocol.Frames.{
  write_str, read_str, write_opt, read_opt, Details, write_detail, read_detail,
}

-- The bytes of a string on the wire.
abbrev pub str_bytes : Text → List ℕ
str_bytes value = be16 (length value) ++ value

abbrev pub opt_bytes : Option Text → List ℕ
opt_bytes none = 0 ∷ []
opt_bytes (some value) = 1 ∷ str_bytes value

-- A string that the length field can count.
abbrev pub Fits : Text → Type 0
Fits value = length value < 65536

abbrev pub FitsOpt : Option Text → Type 0
FitsOpt none = Unit
FitsOpt (some value) = Fits value

abbrev pub IsUtf8 : Text → Type 0
IsUtf8 value = is_utf8 value ≡ true

abbrev pub IsUtf8Opt : Option Text → Type 0
IsUtf8Opt none = Unit
IsUtf8Opt (some value) = IsUtf8 value

pub write_str-ok :
    (value : Text) (out : List ℕ)
    → Fits value
    → write_str value out ≡ ok tt (out ++ str_bytes value)
unfolding write_str
write_str-ok value out h =
    rw (lt→ltb (length value) 65536 h)
      (ap (λ s. ok tt s) (append_assoc out (be16 (length value)) value))

pub read_str-append :
    (value rest : Text)
    → Fits value
    → IsUtf8 value
    → read_str (str_bytes value ++ rest) ≡ ok value rest
unfolding read_str
read_str-append value rest h u =
    rw (read_exact-append 2 (be16 (length value)) (value ++ rest) refl, read_str)
      (rw (be_value-be16 (length value) h, read_str)
        (rw (read_exact-append (length value) value rest refl, read_str) (rw (u, read_str) refl)))

pub write_opt-ok :
    (value : Option Text) (out : List ℕ)
    → FitsOpt value
    → write_opt value out ≡ ok tt (out ++ opt_bytes value)
unfolding write_opt
write_opt-ok none out h = refl
write_opt-ok (some value) out h =
    rw (write_str-ok value (out ++ (1 ∷ [])) h)
      (ap (λ s. ok tt s) (append_assoc out (1 ∷ []) (str_bytes value)))

pub read_opt-append :
    (value : Option Text) (rest : List ℕ)
    → FitsOpt value
    → IsUtf8Opt value
    → read_opt (opt_bytes value ++ rest) ≡ ok value rest
unfolding read_opt
read_opt-append none rest h u = rw (read_exact-append 1 (0 ∷ []) rest refl, read_opt) refl
read_opt-append (some value) rest h u =
    rw (read_exact-append 1 (1 ∷ []) (str_bytes value ++ rest) refl, read_opt)
      (rw (read_str-append value rest h u, read_opt) refl)

-- A string that the length field cannot count is refused before a byte of it is sent.
pub write_str-too_long :
    (value : Text) (out : List ℕ)
    → 65536 ≤ length value
    → write_str value out ≡ err (other string_too_long) out
unfolding write_str
write_str-too_long value out h = rw (le→ltb (length value) 65536 h)

pub Fits-of-write_str : (v : Text) (out out' : List ℕ) → write_str v out ≡ ok tt out' → Fits v
Fits-of-write_str v out out' h = elim (Bool-cases (ltb (length v) 65536)) [
  | inl t ↦ ltb→lt (length v) 65536 t
  | inr t ↦ cc (h, write_str-too_long v out (ltb→le (length v) 65536 t))
]

pub FitsOpt-of-write_opt :
    (v : Option Text) (out out' : List ℕ) → write_opt v out ≡ ok tt out' → FitsOpt v
unfolding write_opt
FitsOpt-of-write_opt none out out' h = tt
FitsOpt-of-write_opt (some v) out out' h = elim (Bool-cases (ltb (length v) 65536)) [
  | inl t ↦ ltb→lt (length v) 65536 t
  | inr t ↦ cc (h, write_str-too_long v (out ++ (1 ∷ [])) (ltb→le (length v) 65536 t))
]

module _ (api : Details) where
  open api use {Detail, max_len, as_bytes, try_from, bound, reads_back, fits}

  abbrev pub detail_bytes : Detail → List ℕ
  detail_bytes d = be16 (length (as_bytes d)) ++ as_bytes d

  detail_fits : (d : Detail) → length (as_bytes d) < 65536
  detail_fits d = omega (arith, bound d, fits)

  pub write_detail-ok :
      (d : Detail) (out : List ℕ) → write_detail api d out ≡ ok tt (out ++ detail_bytes d)
  unfolding write_detail
  write_detail-ok d out =
      rw (lt→ltb (length (as_bytes d)) 65536 (detail_fits d))
        (ap (λ s. ok tt s) (append_assoc out (be16 (length (as_bytes d))) (as_bytes d)))

  pub read_detail-append :
      (d : Detail) (rest : List ℕ) → read_detail api (detail_bytes d ++ rest) ≡ ok d rest
  unfolding read_detail
  read_detail-append d rest =
      rw (read_exact-append 2 (be16 (length (as_bytes d))) (as_bytes d ++ rest) refl, read_detail)
        (rw (be_value-be16 (length (as_bytes d)) (detail_fits d), read_detail)
          (rw (le→ltb max_len (length (as_bytes d)) (bound d), read_detail)
            (rw (read_exact-append (length (as_bytes d)) (as_bytes d) rest refl, read_detail)
              (rw (reads_back d, read_detail) refl))))
