-- ===== src/Grammar/Words.antt =====
-- What the splits of a text are.
use tightbeam.Base.{
  ℕ, ◌≡◌, refl, ap, ◌≢◌, true, false, Option, none, some, List, [], ◌∷◌, ◌++◌, ◌==◌, same_bytes,
  length, length-append, arith, Bool-cases, Option-cases, inl, inr, ==→eq, ==-self,
}
use tightbeam.Base.Bytes.{Text}
use tightbeam.Router.Overlays.{same_bytes-eq}
use tightbeam.Grammar.{split_once, strip_suffix}

pub same_bytes_self : (xs : List ℕ) → same_bytes xs xs ≡ true
unfolding same_bytes
same_bytes_self [] = refl
same_bytes_self (x ∷ xs) = rw (==-self x) (same_bytes_self xs)

pub split_once-append : (c : ℕ) (s l r : Text) → split_once c s ≡ some (l, r) → s ≡ l ++ c ∷ r
unfolding split_once
split_once-append c [] l r h = absurd cc
split_once-append c (b ∷ bs) l r h = elim (Bool-cases (b == c)) [
  | inl here ↦
      let h' : ◌≡◌ {A = Option (Text × Text)} (some ([], bs)) (some (l, r)) = rw (here) at h in
      let el : [] ≡ l = cc h' in let er : bs ≡ r = cc h' in rw (==→eq b c here, ← el, ← er) refl
  | inr there ↦ elim (Option-cases (split_once c bs)) [
    | inl e ↦ absurd (cc (rw (there, e) at h))
    | inr ((l', r'), e) ↦
        let h' : ◌≡◌ {A = Option (Text × Text)} (some (b ∷ l', r')) (some (l, r)) =
          rw (there, e) at h in
        let el : b ∷ l' ≡ l = cc h' in
        let er : r' ≡ r = cc h' in
        rw (← el, ← er) (ap (λ t. b ∷ t) (split_once-append c bs l' r' e))
  ]
]

pub strip_suffix-append : (suffix s b : Text) → strip_suffix suffix s ≡ some b → s ≡ b ++ suffix
unfolding strip_suffix
strip_suffix-append suffix [] b h = elim (Bool-cases (same_bytes [] suffix)) [
  | inl here ↦
      let h' : ◌≡◌ {A = Option Text} (some []) (some b) = rw (here) at h in
      let eb : [] ≡ b = cc h' in rw (← eb) (same_bytes-eq [] suffix here)
  | inr there ↦ absurd (cc (rw (there) at h))
]
strip_suffix-append suffix (x ∷ xs) b h = elim (Bool-cases (same_bytes (x ∷ xs) suffix)) [
  | inl here ↦
      let h' : ◌≡◌ {A = Option Text} (some []) (some b) = rw (here) at h in
      let eb : [] ≡ b = cc h' in rw (← eb) (same_bytes-eq (x ∷ xs) suffix here)
  | inr there ↦ elim (Option-cases (strip_suffix suffix xs)) [
    | inl e ↦ absurd (cc (rw (there, e) at h))
    | inr (t, e) ↦
        let h' : ◌≡◌ {A = Option Text} (some (x ∷ t)) (some b) = rw (there, e) at h in
        let eb : x ∷ t ≡ b = cc h' in
        rw (← eb) (ap (λ l. x ∷ l) (strip_suffix-append suffix xs t e))
  ]
]

strip_suffix_self : (suffix : Text) → strip_suffix suffix suffix ≡ some []
unfolding strip_suffix
strip_suffix_self [] = rw (same_bytes_self []) refl
strip_suffix_self (b ∷ bs) = rw (same_bytes_self (b ∷ bs)) refl

longer : (x : ℕ) (xs suffix : Text) → same_bytes (x ∷ xs ++ suffix) suffix ≡ false
longer x xs suffix = elim (Bool-cases (same_bytes (x ∷ xs ++ suffix) suffix)) [
  | inr not_so ↦ not_so
  | inl so ↦ absurd (
      omega (
        arith,
        ap length (same_bytes-eq (x ∷ xs ++ suffix) suffix so),
        length-append (x ∷ xs) suffix,
      ))
]

pub strip_suffix-hit : (suffix b : Text) → strip_suffix suffix (b ++ suffix) ≡ some b
unfolding strip_suffix
strip_suffix-hit suffix [] = strip_suffix_self suffix
strip_suffix-hit suffix (x ∷ xs) = rw (longer x xs suffix, strip_suffix-hit suffix xs) refl

pub strip_suffix-none :
    (suffix s : Text) → ((b : Text) → s ≢ b ++ suffix) → strip_suffix suffix s ≡ none
strip_suffix-none suffix s plain = elim (Option-cases (strip_suffix suffix s)) [
  | inl e ↦ e
  | inr (b, e) ↦ absurd (plain b (strip_suffix-append suffix s b e))
]
