-- ===== src/Base/Lists.antt =====
-- Lists measured by native numbers, under the library's names, and equality of byte strings.
use Prim.Native.Nat.{ℕ, zero, suc, ◌+◌, ◌-◌, ◌≤◌, min}
use mathlib.Core.Path.{◌≡◌, refl, ap, ◌∙◌}
use mathlib.Core.Bool.{Bool, true, false, ◌&&◌, ◌||◌}
use mathlib.Core.List.{List, [], ◌∷◌, ◌++◌}
use native.Mathlib.Omega.{arith}
use tightbeam.Base.Tests.{◌==◌}

module _ {ℓ} {A : Type ℓ} where
  abbrev pub length : List A → ℕ
  length [] = 0
  length (x ∷ xs) = suc (length xs)

  abbrev pub take : ℕ → List A → List A
  take zero xs = []
  take (suc n) [] = []
  take (suc n) (x ∷ xs) = x ∷ take n xs

  abbrev pub drop : ℕ → List A → List A
  drop zero xs = xs
  drop (suc n) [] = []
  drop (suc n) (x ∷ xs) = drop n xs

  abbrev pub any : (A → Bool) → List A → Bool
  any p [] = false
  any p (x ∷ xs) = p x || any p xs

  abbrev pub All {κ} : (A → Type κ) → List A → Type κ
  All P [] = Unit
  All P (x ∷ xs) = P x × All P xs

  pub length-append : (xs ys : List A) → length (xs ++ ys) ≡ length xs + length ys
  length-append [] ys = omega arith
  length-append (x ∷ xs) ys = omega (arith, length-append xs ys)

  pub take-append-drop : (n : ℕ) (xs : List A) → take n xs ++ drop n xs ≡ xs
  take-append-drop zero xs = refl
  take-append-drop (suc n) [] = refl
  take-append-drop (suc n) (x ∷ xs) = ap (λ l. x ∷ l) (take-append-drop n xs)

  pub length-take : (n : ℕ) (xs : List A) → length (take n xs) ≡ min n (length xs)
  length-take zero xs = omega arith
  length-take (suc n) [] = omega arith
  length-take (suc n) (x ∷ xs) = omega (arith, length-take n xs)

  pub length-drop : (n : ℕ) (xs : List A) → length (drop n xs) ≡ length xs - n
  length-drop zero xs = omega arith
  length-drop (suc n) [] = omega arith
  length-drop (suc n) (x ∷ xs) = omega (arith, length-drop n xs)

  pub take-length : (xs ys : List A) → take (length xs) (xs ++ ys) ≡ xs
  take-length [] ys = refl
  take-length (x ∷ xs) ys = ap (λ l. x ∷ l) (take-length xs ys)

  pub drop-length : (xs ys : List A) → drop (length xs) (xs ++ ys) ≡ ys
  drop-length [] ys = refl
  drop-length (x ∷ xs) ys = drop-length xs ys

  pub drop-nil : (n : ℕ) → drop n ([]) ≡ []
  drop-nil zero = refl
  drop-nil (suc n) = refl

  pub drop-drop : (m n : ℕ) (xs : List A) → drop m (drop n xs) ≡ drop (n + m) xs
  drop-drop m zero xs = ap (λ k. drop k xs) (omega arith)
  drop-drop m (suc n) [] = rw (drop-nil m, drop-nil (suc n + m))
  drop-drop m (suc n) (x ∷ xs) =
      let e : suc (n + m) ≡ suc n + m = omega arith in
      drop-drop m n xs ∙ ap (λ k. drop k (x ∷ xs)) e

  pub take-nil : (n : ℕ) → take n ([]) ≡ []
  take-nil zero = refl
  take-nil (suc n) = refl

  pub take-take-drop : (m n : ℕ) (xs : List A) → take m xs ++ take n (drop m xs) ≡ take (m + n) xs
  take-take-drop zero n xs = ap (λ k. take k xs) (omega arith)
  take-take-drop (suc m) n [] = rw (take-nil n, take-nil (suc m + n)) refl
  take-take-drop (suc m) n (x ∷ xs) =
      let e : suc (m + n) ≡ suc m + n = omega arith in
      ap (λ l. x ∷ l) (take-take-drop m n xs) ∙ ap (λ k. take k (x ∷ xs)) e

  pub take-prefix : (n : ℕ) (xs ys : List A) → n ≤ length xs → take n (xs ++ ys) ≡ take n xs
  take-prefix zero xs ys h = refl
  take-prefix (suc n) [] ys h = absurd (omega arith)
  take-prefix (suc n) (x ∷ xs) ys h = ap (λ l. x ∷ l) (take-prefix n xs ys (omega arith))

  pub drop-append :
      (n : ℕ) (xs ys : List A)
      → drop n (xs ++ ys) ≡ drop (min n (length xs)) xs ++ drop (n - length xs) ys
  drop-append zero xs ys =
      let e : min 0 (length xs) ≡ 0 = omega arith in
      let e' : 0 - length xs ≡ 0 = omega arith in rw (e, e') refl
  drop-append (suc n) [] ys =
      let e : suc n - 0 ≡ suc n = omega arith in rw (e, drop-nil (min (suc n) 0)) refl
  drop-append (suc n) (x ∷ xs) ys =
      let e : min (suc n) (suc (length xs)) ≡ suc (min n (length xs)) = omega arith in
      let e' : suc n - suc (length xs) ≡ n - length xs = omega arith in
      rw (e, e') (drop-append n xs ys)

  pub take-append :
      (n : ℕ) (xs ys : List A)
      → take n (xs ++ ys) ≡ take (min n (length xs)) xs ++ take (n - length xs) ys
  take-append zero xs ys =
      let e : min 0 (length xs) ≡ 0 = omega arith in
      let e' : 0 - length xs ≡ 0 = omega arith in rw (e, e') refl
  take-append (suc n) [] ys =
      let e : suc n - 0 ≡ suc n = omega arith in rw (e, take-nil (min (suc n) 0)) refl
  take-append (suc n) (x ∷ xs) ys =
      let e : min (suc n) (suc (length xs)) ≡ suc (min n (length xs)) = omega arith in
      let e' : suc n - suc (length xs) ≡ n - length xs = omega arith in
      rw (e, e') (ap (λ l. x ∷ l) (take-append n xs ys))

  pub take-min : (n : ℕ) (xs : List A) → take (min (length xs) n) xs ≡ take n xs
  take-min zero xs = let e : min (length xs) 0 ≡ 0 = omega arith in rw (e) refl
  take-min (suc n) [] = take-nil (min 0 (suc n))
  take-min (suc n) (x ∷ xs) =
      let e : min (suc (length xs)) (suc n) ≡ suc (min (length xs) n) = omega arith in
      rw (e) (ap (λ l. x ∷ l) (take-min n xs))

  pub drop_all : (xs : List A) → drop (length xs) xs ≡ []
  drop_all [] = refl
  drop_all (x ∷ xs) = drop_all xs

  pub All-append {κ} :
      (P : A → Type κ) (front back : List A) → All P back → All P front → All P (front ++ back)
  All-append P [] back later first = later
  All-append P (x ∷ front) back later first = (first.0, All-append P front back later first.1)

  pub All-split {κ} :
      (P : A → Type κ) (xs : List A) (y : A) (ys : List A)
      → All P (xs ++ y ∷ ys)
      → All P xs × P y × All P ys
  All-split P [] y ys h = (tt, h.0, h.1)
  All-split P (x ∷ xs) y ys h =
      let (front, here, back) = All-split P xs y ys h.1 in ((h.0, front), here, back)

-- `==` on byte strings.
unfoldable pub same_bytes : List ℕ → List ℕ → Bool
same_bytes [] [] = true
same_bytes [] (y ∷ ys) = false
same_bytes (x ∷ xs) [] = false
same_bytes (x ∷ xs) (y ∷ ys) = (x == y) && same_bytes xs ys

module _ {ℓ} {A : Type ℓ} where
  abbrev pub sum_by : (A → ℕ) → List A → ℕ
  sum_by f [] = 0
  sum_by f (x ∷ xs) = f x + sum_by f xs

  pub sum_by_middle :
      (f : A → ℕ) (xs : List A) (y : A) (ys : List A)
      → sum_by f (xs ++ y ∷ ys) ≡ f y + sum_by f (xs ++ ys)
  sum_by_middle f [] y ys = refl
  sum_by_middle f (x ∷ xs) y ys = omega (arith, sum_by_middle f xs y ys)

  pub length_middle :
      (xs : List A) (y : A) (ys : List A) → length (xs ++ y ∷ ys) ≡ suc (length (xs ++ ys))
  length_middle [] y ys = refl
  length_middle (x ∷ xs) y ys = omega (arith, length_middle xs y ys)

  -- One entry in the middle of a list has what all entries have, and the others have it too.
  pub All-middle {κ} :
      (P : A → Type κ) (xs : List A) (y : A) (ys : List A)
      → All P (xs ++ y ∷ ys)
      → P y × All P (xs ++ ys)
  All-middle P [] y ys all = all
  All-middle P (x ∷ xs) y ys (here, rest) =
      let (mine, others) = All-middle P xs y ys rest in (mine, (here, others))

  pub All-insert {κ} :
      (P : A → Type κ) (xs : List A) (y : A) (ys : List A)
      → P y
      → All P (xs ++ ys)
      → All P (xs ++ y ∷ ys)
  All-insert P [] y ys mine all = (mine, all)
  All-insert P (x ∷ xs) y ys mine (here, rest) = (here, All-insert P xs y ys mine rest)
