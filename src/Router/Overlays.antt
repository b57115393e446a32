-- ===== src/Router/Overlays.antt =====
-- What a proved overlay holds.
use tightbeam.Base.{
  ◌≡◌, refl, sym, subst, ap, ◌∙◌, Bool, true, false, Option, none, some, List, [], ◌∷◌, any,
  same_bytes, ◌==◌, Bool-cases, inl, inr, ==→eq, All, ℕ,
}
use tightbeam.Base.Bytes.{Text}
use tightbeam.Base.Results.{Result, ok, step_ok, ok-injective}
use tightbeam.Router.{
  Services, Route, Refusal, get, contains, unsafe_found, prove_unsafe, public_found, prove_public,
}

pub same_bytes-eq : (xs ys : List ℕ) → same_bytes xs ys ≡ true → xs ≡ ys
unfolding same_bytes
same_bytes-eq [] [] h = refl
same_bytes-eq [] (y ∷ ys) h = absurd cc
same_bytes-eq (x ∷ xs) [] h = absurd cc
same_bytes-eq (x ∷ xs) (y ∷ ys) h = elim (Bool-cases (x == y)) [
  | inl same ↦
      let e : x ≡ y = ==→eq x y same in
      let e' : xs ≡ ys = same_bytes-eq xs ys (rw (same) at h) in rw (e, e') refl
  | inr other ↦ absurd (cc (rw (other) at h))
]

some_or : Route → Option Route → Route
some_or d none = d
some_or d (some r) = r

some-injective : (a b : Route) → Option.some a ≡ some b → a ≡ b
unfolding some_or
some-injective a b e = ap (some_or a) e

-- A name in a list has what all names of the list have.
pub contains-All :
    (P : Text → Type 0) (names : List Text) (name : Text)
    → All P names
    → contains names name ≡ true
    → P name
contains-All P [] name all h = absurd cc
contains-All P (n ∷ ns) name all h = elim (Bool-cases (same_bytes n name)) [
  | inl same ↦ subst P (same_bytes-eq n name same) all.0
  | inr other ↦ contains-All P ns name all.1 (rw (other) at h)
]

pub record Proved (good : Text → Result Refusal (Unit {0})) (names proved : List Text)
    : Type 0 where
  pub same : proved ≡ names
  pub all : All (λ n. good n ≡ ok tt) names

module _ (services : Services) where
  pub prove_unsafe-Proved :
      (names proved : List Text)
      → prove_unsafe services names ≡ ok proved
      → Proved (λ n. unsafe_found (get services n)) names proved
  unfolding prove_unsafe
  prove_unsafe-Proved [] proved h = record { same = sym (ok-injective h); all = tt }
  prove_unsafe-Proved (n ∷ ns) proved h = step_ok (unsafe_found (get services n)) _ h (λ u e h'.
      step_ok (prove_unsafe services ns) _ h' (λ rest e' h''.
        let p = prove_unsafe-Proved ns rest e' in
        record { same = sym (ok-injective h'') ∙ ap (λ l. n ∷ l) p.same; all = (e, p.all) }))

  pub prove_public-Proved :
      (names proved : List Text)
      → prove_public services names ≡ ok proved
      → Proved (λ n. public_found (get services n)) names proved
  unfolding prove_public
  prove_public-Proved [] proved h = record { same = sym (ok-injective h); all = tt }
  prove_public-Proved (n ∷ ns) proved h = step_ok (public_found (get services n)) _ h (λ u e h'.
      step_ok (prove_public services ns) _ h' (λ rest e' h''.
        let p = prove_public-Proved ns rest e' in
        record { same = sym (ok-injective h'') ∙ ap (λ l. n ∷ l) p.same; all = (e, p.all) }))

-- What no route of the table has, the route that a name finds has not.
pub get-any-false :
    (p : Route → Bool) (services : Services) (name : Text) (route : Route)
    → any p services ≡ false
    → get services name ≡ some route
    → p route ≡ false
get-any-false p [] name route none_so found = absurd cc
get-any-false p (r ∷ rs) name route none_so found = elim (Bool-cases (p r)) [
  | inl yes_so ↦ absurd (cc (rw (yes_so) at none_so))
  | inr not_so ↦ elim (Bool-cases (same_bytes r.name name)) [
    | inl here ↦ subst (λ x. p x ≡ false) (some-injective r route (rw (here) at found)) not_so
    | inr there ↦ get-any-false p rs name route (rw (not_so) at none_so) (rw (there) at found)
  ]
]

pub get-name :
    (services : Services) (name : Text) (route : Route)
    → get services name ≡ some route
    → route.name ≡ name
get-name [] name route found = absurd cc
get-name (r ∷ rs) name route found = elim (Bool-cases (same_bytes r.name name)) [
  | inl here ↦
      subst (λ x. x.name ≡ name) (some-injective r route (rw (here) at found))
        (same_bytes-eq r.name name here)
  | inr there ↦ get-name rs name route (rw (there) at found)
]
