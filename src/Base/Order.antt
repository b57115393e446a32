-- ===== src/Base/Order.antt =====
-- The order of byte strings, and a stable sort by a key that is one.
use Prim.Native.Nat.{ℕ, suc}
use mathlib.Core.Path.{◌≡◌, refl, ap, ◌∙◌}
use mathlib.Core.Logic.{inl, inr}
use mathlib.Core.Bool.{Bool, true, false, ◌||◌}
use mathlib.Core.List.{List, [], ◌∷◌, map}
use native.Mathlib.Omega.{arith}
use tightbeam.Base.Tests.{ltb, ◌==◌, if◌then◌else◌, Bool-cases}
use tightbeam.Base.Lists.{All, any, length}

-- `Ord` of `str`
unfoldable pub leb_text : List ℕ → List ℕ → Bool
leb_text [] ys = true
leb_text (x ∷ xs) [] = false
leb_text (x ∷ xs) (y ∷ ys) = let rest = leb_text xs ys in if x == y then rest else ltb x y

pub leb_text_total : (xs ys : List ℕ) → leb_text xs ys ≡ false → leb_text ys xs ≡ true
unfolding leb_text
leb_text_total [] ys h = absurd cc
leb_text_total (x ∷ xs) [] h = refl
leb_text_total (x ∷ xs) (y ∷ ys) h = ground (arith, leb_text_total xs ys)

pub leb_text_trans :
    (xs ys zs : List ℕ) → leb_text xs ys ≡ true → leb_text ys zs ≡ true → leb_text xs zs ≡ true
unfolding leb_text
leb_text_trans [] ys zs h k = refl
leb_text_trans (x ∷ xs) [] zs h k = absurd cc
leb_text_trans (x ∷ xs) (y ∷ ys) [] h k = absurd cc
leb_text_trans (x ∷ xs) (y ∷ ys) (z ∷ zs) h k = ground (arith, leb_text_trans xs ys zs)

module _ {A : Type 0} (key : A → List ℕ) where
  pub insert_by : A → List A → List A
  insert_by x [] = x ∷ []
  insert_by x (y ∷ ys) =
      let rest = insert_by x ys in if leb_text (key x) (key y) then x ∷ y ∷ ys else y ∷ rest

  unfoldable pub sort_by : List A → List A
  unfolding insert_by
  sort_by [] = []
  sort_by (x ∷ xs) = insert_by x (sort_by xs)

  All-insert_by :
      (P : List ℕ → Type 0) (x : A) (ys : List A)
      → P (key x)
      → All (λ y. P (key y)) ys
      → All (λ y. P (key y)) (insert_by x ys)
  unfolding insert_by
  All-insert_by P x [] h k = (h, tt)
  All-insert_by P x (y ∷ ys) h k = elim (Bool-cases (leb_text (key x) (key y))) [
    | inl le ↦ rw (le) (h, k)
    | inr gt ↦ rw (gt) (k.0, All-insert_by P x ys h k.1)
  ]

  length-insert_by : (x : A) (ys : List A) → length (insert_by x ys) ≡ suc (length ys)
  unfolding insert_by
  length-insert_by x [] = refl
  length-insert_by x (y ∷ ys) = elim (Bool-cases (leb_text (key x) (key y))) [
    | inl le ↦ rw (le) refl
    | inr gt ↦ rw (gt) (ap suc (length-insert_by x ys))
  ]

  pub length-sort_by : (xs : List A) → length (sort_by xs) ≡ length xs
  unfolding sort_by
  length-sort_by [] = refl
  length-sort_by (x ∷ xs) = length-insert_by x (sort_by xs) ∙ ap suc (length-sort_by xs)

  any-insert_by : (p : A → Bool) (x : A) (ys : List A) → any p (insert_by x ys) ≡ p x || any p ys
  unfolding insert_by
  any-insert_by p x [] = refl
  any-insert_by p x (y ∷ ys) = elim (Bool-cases (leb_text (key x) (key y))) [
    | inl le ↦ rw (le) refl
    | inr gt ↦ rw (gt) (ground (arith, any-insert_by p x ys))
  ]

  pub any-sort_by : (p : A → Bool) (xs : List A) → any p (sort_by xs) ≡ any p xs
  unfolding sort_by
  any-sort_by p [] = refl
  any-sort_by p (x ∷ xs) = any-insert_by p x (sort_by xs) ∙ ap (λ b. p x || b) (any-sort_by p xs)

  abbrev pub IsSorted : List A → Type 0
  IsSorted [] = Unit {0}
  IsSorted (x ∷ xs) = All (λ y. leb_text (key x) (key y) ≡ true) xs × IsSorted xs

  above :
      (x y : A) (ys : List A)
      → leb_text (key x) (key y) ≡ true
      → All (λ z. leb_text (key y) (key z) ≡ true) ys
      → All (λ z. leb_text (key x) (key z) ≡ true) ys
  above x y [] h all = tt
  above x y (z ∷ zs) h all = (leb_text_trans (key x) (key y) (key z) h all.0, above x y zs h all.1)

  insert_by-IsSorted : (x : A) (ys : List A) → IsSorted ys → IsSorted (insert_by x ys)
  unfolding insert_by
  insert_by-IsSorted x [] s = (tt, tt)
  insert_by-IsSorted x (y ∷ ys) s = elim (Bool-cases (leb_text (key x) (key y))) [
    | inl le ↦ rw (le) ((le, above x y ys le s.0), s)
    | inr gt ↦ rw (gt) (
      All-insert_by (λ k. leb_text (key y) k ≡ true) x ys (leb_text_total (key x) (key y) gt) s.0,
      insert_by-IsSorted x ys s.1,
    )
  ]

  pub sort_by-IsSorted : (xs : List A) → IsSorted (sort_by xs)
  unfolding sort_by
  sort_by-IsSorted [] = tt
  sort_by-IsSorted (x ∷ xs) = insert_by-IsSorted x (sort_by xs) (sort_by-IsSorted xs)

  insert_by_least :
      (x : A) (ys : List A)
      → All (λ y. leb_text (key x) (key y) ≡ true) ys
      → insert_by x ys ≡ x ∷ ys
  unfolding insert_by
  insert_by_least x [] all = refl
  insert_by_least x (y ∷ ys) all = rw (all.0) refl

  pub sort_by_sorted : (xs : List A) → IsSorted xs → sort_by xs ≡ xs
  unfolding sort_by
  sort_by_sorted [] s = refl
  sort_by_sorted (x ∷ xs) s = ap (insert_by x) (sort_by_sorted xs s.1) ∙ insert_by_least x xs s.0

-- A sort of values by a key that they were made of.
module _ {A B : Type 0} (key : B → List ℕ) (f : A → B) where
  insert_by-map :
      (x : A) (ys : List A)
      → insert_by key (f x) (map f ys) ≡ map f (insert_by (λ a. key (f a)) x ys)
  unfolding insert_by
  insert_by-map x [] = refl
  insert_by-map x (y ∷ ys) = elim (Bool-cases (leb_text (key (f x)) (key (f y)))) [
    | inl le ↦ rw (le) refl
    | inr gt ↦ rw (gt) (ap (λ l. f y ∷ l) (insert_by-map x ys))
  ]

  pub sort_by-map : (xs : List A) → sort_by key (map f xs) ≡ map f (sort_by (λ a. key (f a)) xs)
  unfolding sort_by
  sort_by-map [] = refl
  sort_by-map (x ∷ xs) =
      ap (insert_by key (f x)) (sort_by-map xs) ∙ insert_by-map x (sort_by (λ a. key (f a)) xs)
