-- ===== src/Lifetime/Verdict.antt =====
-- What `from_str` answers to every text of digits and one more character.
use tightbeam.Base.{
  ℕ, suc, ◌+◌, ◌-◌, ◌*◌, ◌≤◌, ◌<◌, ◌≡◌, ◌≢◌, ◌↔◌, refl, sym, ◌∙◌, true, false, List, [], ◌∷◌, ◌++◌,
  Option, none, some, length, length-append, take-length, drop-length, ltb, leb, ◌==◌,
  if◌then◌else◌, arith, All, Bool-cases, inl, inr, ltb→lt,
}
use tightbeam.Lifetime.{
  with_count, checked_span, with_unit, starts_char, push_digit, from_str, parse_u64, digits_from,
  seconds_per, Parsed, value, refused, panicked, too_long, zero_span, bad_number, pos_overflow,
  u64_mod, ParseIntError, LifetimeParseError,
}

abbrev pub IsDigit : ℕ → Type 0
IsDigit b = (b'0' ≤ b) × (b ≤ b'9')

-- The number that a row of digits writes, with no bound.
abbrev pub decimal_from : ℕ → List ℕ → ℕ
decimal_from acc [] = acc
decimal_from acc (b ∷ bs) = decimal_from (acc * 10 + (b - b'0')) bs

abbrev pub decimal : List ℕ → ℕ
decimal ds = decimal_from 0 ds

pub decimal_from-ge : (acc : ℕ) (ds : List ℕ) → acc ≤ decimal_from acc ds
decimal_from-ge acc [] = omega arith
decimal_from-ge acc (b ∷ bs) = omega (arith, decimal_from-ge (acc * 10 + (b - b'0')) bs)

digits_from-refused : (e : ParseIntError) (ds : List ℕ) → digits_from (refused e) ds ≡ refused e
unfolding digits_from
digits_from-refused e [] = refl
digits_from-refused e (b ∷ bs) = refl

-- The checked steps overflow exactly when the whole number does.
digits_from-decimal :
    (acc : ℕ) (ds : List ℕ)
    → acc < u64_mod
    → All IsDigit ds
    → digits_from (value acc) ds ≡ (
        if ltb (decimal_from acc ds) u64_mod
        then value (decimal_from acc ds)
        else refused pos_overflow)
unfolding digits_from
digits_from-decimal acc [] h all = ground arith
digits_from-decimal acc (b ∷ bs) h all =
    let acc' : ℕ = acc * 10 + (b - b'0') in
    elim (Bool-cases (ltb acc' u64_mod)) [
      | inl small ↦ ground (arith, digits_from-decimal acc' bs (ltb→lt acc' u64_mod small) all.1)
      | inr big ↦ ground (arith, digits_from-refused pos_overflow bs, decimal_from-ge acc' bs)
    ]

parse_u64-decimal :
    (ds : List ℕ)
    → ds ≢ []
    → All IsDigit ds
    → parse_u64 ds ≡ (if ltb (decimal ds) u64_mod then value (decimal ds) else refused pos_overflow)
unfolding parse_u64
parse_u64-decimal [] ne all = absurd (ne refl)
parse_u64-decimal (b ∷ []) ne all =
    let plain : (b == b'+') ≡ false = ground arith in
    rw plain (digits_from-decimal 0 (b ∷ []) (omega arith) all)
parse_u64-decimal (b ∷ c ∷ bs) ne all =
    let plain : (b == b'+') ≡ false = ground arith in
    rw plain (digits_from-decimal 0 (b ∷ c ∷ bs) (omega arith) all)

digits_from-ne-panicked :
    (o : Parsed ParseIntError) (ds : List ℕ) → o ≢ panicked → digits_from o ds ≢ panicked
unfolding digits_from
digits_from-ne-panicked o [] h = h
digits_from-ne-panicked (value n) (b ∷ bs) h =
    digits_from-ne-panicked (push_digit n b) bs (ground arith)
digits_from-ne-panicked (refused e) (b ∷ bs) h = λ e. cc
digits_from-ne-panicked panicked (b ∷ bs) h = h

parse_u64-ne-panicked : (ds : List ℕ) → parse_u64 ds ≢ panicked
unfolding parse_u64
parse_u64-ne-panicked [] = λ e. cc
parse_u64-ne-panicked (b ∷ []) =
    ground (arith, digits_from-ne-panicked (value 0) (b ∷ []) (λ e. cc))
parse_u64-ne-panicked (b ∷ c ∷ bs) = ground (
  arith,
  digits_from-ne-panicked (value 0) (c ∷ bs) (λ e. cc),
  digits_from-ne-panicked (value 0) (b ∷ c ∷ bs) (λ e. cc),
)

-- The split of a text at its last byte.
from_str-snoc :
    (ds : List ℕ) (b : ℕ)
    → from_str (ds ++ b ∷ []) ≡ (
        if (if length ds == 0 then true else starts_char (b ∷ []))
        then with_unit ds (seconds_per (b ∷ []))
        else panicked)
unfolding from_str
from_str-snoc ds b =
    let at : length (ds ++ b ∷ []) - 1 ≡ length ds = omega (arith, length-append ds (b ∷ [])) in
    rw (at, take-length ds (b ∷ []), drop-length ds (b ∷ [])) refl

unit_bounds : (b per : ℕ) → seconds_per (b ∷ []) ≡ some per → (b < 0x80) × (0 < per)
unfolding seconds_per
unit_bounds b per h = ground arith

from_str-unit :
    (ds : List ℕ) (b per : ℕ)
    → seconds_per (b ∷ []) ≡ some per
    → from_str (ds ++ b ∷ []) ≡ with_count per (parse_u64 ds)
unfolding with_unit
from_str-unit ds b per unit = from_str-snoc ds b ∙ rw unit (ground (arith, unit_bounds b per unit))

-- The answer for digits that write `n`, under a unit of `per` seconds, by unbounded arithmetic.
abbrev pub verdict : ℕ → ℕ → Parsed LifetimeParseError
verdict n per =
    if leb u64_mod n
    then refused (bad_number pos_overflow)
    else if leb u64_mod (n * per)
    then refused too_long
    else if n == 0
    then refused zero_span
    else value (n * per)

checked_span-verdict : (n per : ℕ) → 0 < per → n < u64_mod → checked_span (n * per) ≡ verdict n per
unfolding checked_span
checked_span-verdict ℕ.zero per p h = ground arith
checked_span-verdict (suc n) per p h = let nonzero : 0 < suc n * per = grind arith in ground arith

-- Digits and a unit: the lifetime is the number times the unit's seconds when that is neither zero
-- nor past `u64`; a number past `u64`, a product past it, and zero have each their own error.
pub from_str-verdict :
    (ds : List ℕ) (b per : ℕ)
    → ds ≢ []
    → All IsDigit ds
    → seconds_per (b ∷ []) ≡ some per
    → from_str (ds ++ b ∷ []) ≡ verdict (decimal ds) per
unfolding with_count
from_str-verdict ds b per ne all unit =
    from_str-unit ds b per unit ∙ elim (Bool-cases (ltb (decimal ds) u64_mod)) [
      | inl small ↦
          rw (parse_u64-decimal ds ne all, small)
            (checked_span-verdict (decimal ds) per (unit_bounds b per unit).1
              (ltb→lt (decimal ds) u64_mod small))
      | inr big ↦ rw (parse_u64-decimal ds ne all, big) (ground arith)
    ]

with_unit-ne-panicked : (ds : List ℕ) (u : Option ℕ) → with_unit ds u ≢ panicked
unfolding with_unit checked_span
with_unit-ne-panicked ds none = λ e. cc
with_unit-ne-panicked ds (some per) = ground (arith, parse_u64-ne-panicked ds)

-- A text of more than one byte makes the parse panic exactly when its last byte lies inside a
-- character, whatever the bytes before it are.
pub from_str-panicked :
    (init : List ℕ) (b : ℕ)
    → (from_str (init ++ b ∷ []) ≡ panicked) ↔ ((init ≢ []) × (0x80 ≤ b) × (b < 0xc0))
from_str-panicked [] b = (
  λ h. absurd (with_unit-ne-panicked [] (seconds_per (b ∷ [])) (sym (from_str-snoc [] b) ∙ h)),
  λ h. absurd (h.0 refl),
)
from_str-panicked (c ∷ init) b = rw (from_str-snoc (c ∷ init) b) (
  λ h. (
    λ e. cc,
    ground (arith, with_unit-ne-panicked (c ∷ init) (seconds_per (b ∷ []))),
    ground (arith, with_unit-ne-panicked (c ∷ init) (seconds_per (b ∷ []))),
  ),
  λ h. ground arith,
)
