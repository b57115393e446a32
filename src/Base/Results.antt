-- ===== src/Base/Results.antt =====
-- Fallible code with no stream: a value or an error.
use mathlib.Core.Path.{◌≡◌, refl, ap}
use mathlib.Core.Logic.{◌⊎◌, inl, inr}
use mathlib.Core.Option.{Option, none, some}

pub data Result (E A : Type 0) : Type 0 where
  err : E → Result E A
  ok : A → Result E A

module _ {E : Type 0} where
  infixl 5 ◌>>=◌
  abbrev pub ◌>>=◌ : {A B : Type 0} → Result E A → (A → Result E B) → Result E B
  err e >>= next = err e
  ok a >>= next = next a

  infixl 5 ◌>>◌
  abbrev pub ◌>>◌ : {B : Type 0} → Result E (Unit {0}) → Result E B → Result E B
  first >> next = first >>= λ done. next

-- Inversion of a successful step: what the continuation is given are variables.
pub step_ok :
    {E A B : Type 0} {P : Type 0} (m : Result E A) (f : A → Result E B) {b : B}
    → (m >>= f) ≡ ok b
    → ((a : A) → m ≡ ok a → f a ≡ ok b → P)
    → P
step_ok (ok a) f h k = k a refl h
step_ok (err e) f h k = absurd cc

-- Inversion of a step that fails, in its first part or in what follows.
pub step_err :
    {E A B P : Type 0} (m : Result E A) (f : A → Result E B) {e : E}
    → (m >>= f) ≡ err e
    → (m ≡ err e → P)
    → ((a : A) → m ≡ ok a → f a ≡ err e → P)
    → P
step_err (ok a) f h first later = later a refl h
step_err (err x) f h first later = first (cc h)

pub Result-cases :
    {E A : Type 0} (r : Result E A) → ((e : E) × (r ≡ err e)) ⊎ ((a : A) × (r ≡ ok a))
Result-cases (err e) = inl (e, refl)
Result-cases (ok a) = inr (a, refl)

ok_or : {E A : Type 0} → A → Result E A → A
ok_or d (ok a) = a
ok_or d (err e) = d

pub ok-injective : {E A : Type 0} {a b : A} (e : ◌≡◌ {A = Result E A} (ok a) (ok b)) → a ≡ b
unfolding ok_or
ok-injective {E} {A} {a} e = ap (ok_or a) e

module _ {E F A : Type 0} where
  abbrev pub map_err : (E → F) → Result E A → Result F A
  map_err f (err e) = err (f e)
  map_err f (ok a) = ok a

pub map_err-ok :
    {E F A : Type 0} (f : E → F) (r : Result E A) {a : A} → map_err f r ≡ ok a → r ≡ ok a
map_err-ok f (err e) h = absurd cc
map_err-ok f (ok x) h = cc h

-- `Option::ok_or`
abbrev pub some_or : {E A : Type 0} → E → Option A → Result E A
some_or e none = err e
some_or e (some a) = ok a
