-- ===== src/Tests/Text.antt =====
-- Runs of src/duration.rs and of the UTF-8 check.
use tightbeam.Base.{ℕ, true, false, ◌↔◌, ◌≡◌, refl, ◌≢◌, [], ◌∷◌, arith, List, ◌≤◌, ◌<◌}
use tightbeam.Base.Bytes.{is_utf8}
use tightbeam.Lifetime.{from_str, value, refused, panicked, bad_unit, seconds_per}
use tightbeam.Lifetime.Verdict.{from_str-verdict, from_str-panicked}

utf8_accepts : is_utf8 (0x77 ∷ 0xc3 ∷ 0xa9 ∷ 0xf0 ∷ 0x9f ∷ 0x98 ∷ 0x80 ∷ []) ≡ true
unfolding is_utf8
utf8_accepts = refl

utf8_refuses_surrogate : is_utf8 (0xed ∷ 0xa0 ∷ 0x80 ∷ []) ≡ false
unfolding is_utf8
utf8_refuses_surrogate = refl

utf8_refuses_cut : is_utf8 (0xe2 ∷ 0x82 ∷ []) ≡ false
unfolding is_utf8
utf8_refuses_cut = refl

nothing_left : from_str [] ≡ refused bad_unit
unfolding from_str seconds_per
nothing_left = refl

from_str-verdict_example : from_str (b'2' ∷ b'h' ∷ []) ≡ value 7200
unfolding seconds_per
from_str-verdict_example =
    from_str-verdict (b'2' ∷ []) b'h' 3600 (λ e. cc) ((omega arith, omega arith), tt) refl

from_str-panicked_example :
    (from_str (b'2' ∷ 0xc2 ∷ 0xb5 ∷ []) ≡ panicked)
    ↔ ((◌≢◌ {A = List ℕ} (b'2' ∷ 0xc2 ∷ []) []) × (0x80 ≤ 0xb5) × (0xb5 < 0xc0))
from_str-panicked_example = from_str-panicked (b'2' ∷ 0xc2 ∷ []) 0xb5

micro : from_str (b'2' ∷ 0xc2 ∷ 0xb5 ∷ []) ≡ panicked
unfolding from_str
micro = refl
