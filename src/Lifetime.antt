-- ===== src/Lifetime.antt =====
-- src/duration.rs: a capability lifetime, `<n>s`, `<n>m`, `<n>h` or `<n>d`. A text is its bytes.
-- `str::split_at` and `u64::from_str` are the standard library's: the split panics inside a
-- character, and the parse reads an optional `+` and then digits from the left, with the checks of
-- every step in their order.
pub mod Verdict
use tightbeam.Base.{
  ℕ, ◌+◌, ◌-◌, ◌*◌, ◌^◌, ◌≡◌, refl, Bool, true, false, ◌&&◌, List, [], ◌∷◌, Option, none, some,
  length, take, drop, ltb, leb, ◌==◌, if◌then◌else◌,
}
use tightbeam.Base.Bytes.{Text}

pub data ParseIntError : Type 0 where
  empty invalid_digit pos_overflow : ParseIntError

pub data LifetimeParseError : Type 0 where
  bad_unit too_long zero_span : LifetimeParseError
  bad_number : ParseIntError → LifetimeParseError

pub data Parsed (E : Type 0) : Type 0 where
  value : ℕ → Parsed E
  refused : E → Parsed E
  -- The split fell inside a character.
  panicked : Parsed E

abbrev pub u64_mod : ℕ
u64_mod = 2 ^ 64

abbrev pub is_digit : ℕ → Bool
is_digit b = leb b'0' b && leb b b'9'

-- One digit onto the number so far: a byte that is no digit is refused before an overflow.
push_digit : ℕ → ℕ → Parsed ParseIntError
push_digit acc b =
    if is_digit b
    then (if ltb (acc * 10 + (b - b'0')) u64_mod
        then value (acc * 10 + (b - b'0'))
        else refused pos_overflow)
    else refused invalid_digit

digits_from : Parsed ParseIntError → List ℕ → Parsed ParseIntError
unfolding push_digit
digits_from acc [] = acc
digits_from (value n) (b ∷ bs) = digits_from (push_digit n b) bs
digits_from (refused e) (b ∷ bs) = refused e
digits_from panicked (b ∷ bs) = panicked

-- `digits.parse::<u64>()`
unfoldable pub parse_u64 : List ℕ → Parsed ParseIntError
unfolding digits_from
parse_u64 [] = refused empty
parse_u64 (b ∷ []) = if b == b'+' then refused invalid_digit else digits_from (value 0) (b ∷ [])
parse_u64 (b ∷ c ∷ bs) =
    if b == b'+' then digits_from (value 0) (c ∷ bs) else digits_from (value 0) (b ∷ c ∷ bs)

-- `match unit`
unfoldable pub seconds_per : List ℕ → Option ℕ
seconds_per [] = none
seconds_per (b ∷ []) =
    if b == b's'
    then some 1
    else if b == b'm'
    then some 60
    else if b == b'h'
    then some (60 * 60)
    else if b == b'd'
    then some (24 * 60 * 60)
    else none
seconds_per (b ∷ c ∷ bs) = none

-- A byte at which a character may begin.
abbrev pub starts_char : List ℕ → Bool
starts_char [] = true
starts_char (b ∷ bs) = if ltb b 0x80 then true else leb 0xc0 b

checked_span : ℕ → Parsed LifetimeParseError
checked_span seconds =
    if ltb seconds u64_mod
    then (if seconds == 0 then refused zero_span else value seconds)
    else refused too_long

with_count : ℕ → Parsed ParseIntError → Parsed LifetimeParseError
unfolding checked_span
with_count per (value count) = checked_span (count * per)
with_count per (refused e) = refused (bad_number e)
with_count per panicked = panicked

with_unit : List ℕ → Option ℕ → Parsed LifetimeParseError
unfolding with_count
with_unit digits none = refused bad_unit
with_unit digits (some per) = with_count per (parse_u64 digits)

-- `Lifetime::from_str`, to the seconds of the lifetime.
unfoldable pub from_str : Text → Parsed LifetimeParseError
unfolding with_unit
from_str text =
    let at = length text - 1 in
    let unit = drop at text in
    if (if at == 0 then true else starts_char unit)
    then with_unit (take at text) (seconds_per unit)
    else panicked
