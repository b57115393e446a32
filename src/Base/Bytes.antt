-- ===== src/Base/Bytes.antt =====
-- What the wires use of the standard library's integers and strings: big-endian `u16` and `u32`
-- (`to_be_bytes`, `from_be_bytes`) and the check of `String::from_utf8`. A byte is a number below
-- 256, and a Rust `String` is the list of its bytes.
use Prim.Native.Nat.{ℕ, ◌+◌, ◌*◌, ◌/◌, ◌%◌, ◌<◌, ◌-◌}
use mathlib.Core.Path.{◌≡◌}
use mathlib.Core.Bool.{Bool, false, ◌&&◌}
use mathlib.Core.Option.{Option, none, some}
use mathlib.Core.List.{List, [], ◌∷◌}
use native.Mathlib.Omega.{arith}
use tightbeam.Base.Tests.{leb, ◌==◌, if◌then◌else◌}
use tightbeam.Base.Lists.{All}

abbrev pub Text : Type 0
Text = List ℕ

abbrev pub IsByte : ℕ → Type 0
IsByte b = b < 256

abbrev pub AreBytes : List ℕ → Type 0
AreBytes = All IsByte

-- `u16::to_be_bytes` and `u32::to_be_bytes`, of a number cast to the width first.
abbrev pub be16 : ℕ → List ℕ
be16 n = (n / 256 % 256) ∷ (n % 256) ∷ []

abbrev pub be32 : ℕ → List ℕ
be32 n = (n / 16777216 % 256) ∷ (n / 65536 % 256) ∷ (n / 256 % 256) ∷ (n % 256) ∷ []

-- The big-endian value of a byte string, as `from_be_bytes` reads it.
abbrev pub be_value_from : ℕ → List ℕ → ℕ
be_value_from acc [] = acc
be_value_from acc (b ∷ bs) = be_value_from (acc * 256 + b) bs

abbrev pub be_value : List ℕ → ℕ
be_value bs = be_value_from 0 bs

pub be_value-be16 : (n : ℕ) → n < 65536 → be_value (be16 n) ≡ n
be_value-be16 n h = omega arith

pub be_value-be32 : (n : ℕ) → n < 4294967296 → be_value (be32 n) ≡ n
be_value-be32 n h = omega arith

-- How many continuation bytes a sequence still needs, and the range of the next one.
pub record Utf8State : Type 0 where
  pub more : ℕ
  pub lo : ℕ
  pub hi : ℕ

abbrev needs : ℕ → ℕ → ℕ → Option Utf8State
needs more lo hi = some (record { more = more; lo = lo; hi = hi })

-- The first byte of a sequence: overlong forms, surrogates and values past U+10FFFF are refused by
-- the range of the second byte.
utf8_lead : ℕ → Option Utf8State
utf8_lead b =
    if leb b 0x7f
    then needs 0 0x80 0xbf
    else if leb 0xc2 b && leb b 0xdf
    then needs 1 0x80 0xbf
    else if b == 0xe0
    then needs 2 0xa0 0xbf
    else if b == 0xed
    then needs 2 0x80 0x9f
    else if leb 0xe1 b && leb b 0xef
    then needs 2 0x80 0xbf
    else if b == 0xf0
    then needs 3 0x90 0xbf
    else if leb 0xf1 b && leb b 0xf3
    then needs 3 0x80 0xbf
    else if b == 0xf4
    then needs 3 0x80 0x8f
    else none

utf8_step : Utf8State → ℕ → Option Utf8State
unfolding utf8_lead
utf8_step s b =
    if s.more == 0
    then utf8_lead b
    else if leb s.lo b && leb b s.hi
    then needs (s.more - 1) 0x80 0xbf
    else none

utf8_run : Option Utf8State → List ℕ → Bool
unfolding utf8_step
utf8_run none bs = false
utf8_run (some s) [] = s.more == 0
utf8_run (some s) (b ∷ bs) = utf8_run (utf8_step s b) bs

-- Whether `String::from_utf8` accepts the bytes.
unfoldable pub is_utf8 : List ℕ → Bool
unfolding utf8_run
is_utf8 bs = utf8_run (needs 0 0x80 0xbf) bs
