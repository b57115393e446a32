-- ===== src/Forward/Carried.antt =====
-- The local connections that a forward holds.
use tightbeam.Base.{
  ℕ, ◌+◌, ◌<◌, ◌≤◌, ◌≡◌, refl, ap, Bool, true, false, Option, none, some, List, [], ◌∷◌, length,
  ◌==◌, if◌then◌else◌, arith, Bool-cases, Option-cases, inl, inr, ==→eq,
}
use tightbeam.Forward.{
  Forward, Arm, and_then, closed, retried, accepted, accept_failed, finished, Turn, Loop, forwards,
  connection_lost, without, may_accept, select, turn, run, max_pipes,
}

abbrev pub count : ℕ → List ℕ → ℕ
count c [] = 0
count c (x ∷ xs) = (if x == c then 1 else 0) + count c xs

-- How often a connection was taken, and was over, in a row of turns.
abbrev pub taken_by : ℕ → Arm → ℕ
taken_by c (accepted tcp) = if tcp == c then 1 else 0
taken_by c closed = 0
taken_by c retried = 0
taken_by c accept_failed = 0
taken_by c (finished tcp failed) = 0

abbrev pub over_by : ℕ → Arm → ℕ
over_by c (finished tcp failed) = if tcp == c then 1 else 0
over_by c closed = 0
over_by c retried = 0
over_by c accept_failed = 0
over_by c (accepted tcp) = 0

unfoldable pub taken : ℕ → List Turn → ℕ
taken c [] = 0
taken c (t ∷ ts) = taken_by c t.arm + taken c ts

unfoldable pub over : ℕ → List Turn → ℕ
over c [] = 0
over c (t ∷ ts) = over_by c t.arm + over c ts

without-count :
    (c tcp : ℕ) (ps : List ℕ) {qs : List ℕ}
    → without tcp ps ≡ some qs
    → (count c qs + (if tcp == c then 1 else 0) ≡ count c ps) × (length qs ≤ length ps)
unfolding without
without-count c tcp [] h = absurd cc
without-count c tcp (p ∷ ps) {qs} h = elim (Bool-cases (p == tcp)) [
  | inl same ↦
      let e : ps ≡ qs = cc (rw (same) at h) in
      let e' : p ≡ tcp = ==→eq p tcp same in rw (← e, e') (omega arith, omega arith)
  | inr other ↦ elim (Option-cases (without tcp ps)) [
    | inl gone ↦ absurd (cc (rw (other, gone) at h))
    | inr (rest, found) ↦
        let e : p ∷ rest ≡ qs = cc (rw (other, found) at h) in
        let (counted, shorter) = without-count c tcp ps found in
        rw (← e) (omega (arith, counted), omega (arith, shorter))
  ]
]

-- What a row of turns keeps.
pub record Kept (ts : List Turn) (f g : Forward) : Type 0 where
  pub bounded : length g.pipes ≤ max_pipes
  pub counted : (c : ℕ) → count c g.pipes + over c ts ≡ count c f.pipes + taken c ts

the_forward : Forward → Option Loop → Forward
the_forward f (some (forwards x)) = x
the_forward f (some connection_lost) = f
the_forward f none = f

forwards_injective : {f g : Forward} → some (forwards f) ≡ some (forwards g) → f ≡ g
unfolding the_forward
forwards_injective {f} h = ap (the_forward f) h

guarded :
    {b : Bool} {x g : Forward}
    → (if b then some (forwards x) else none) ≡ some (forwards g)
    → (b ≡ true) × (x ≡ g)
guarded {b = true} h = (refl, cc h)
guarded {b = false} h = absurd cc

may_accept-lt : (f : Forward) → may_accept f ≡ true → length f.pipes < max_pipes
may_accept-lt f h = ground arith

select-Kept :
    (t : Turn) (arm : Arm) (f g : Forward)
    → length f.pipes ≤ max_pipes
    → select t arm f ≡ some (forwards g)
    → (length g.pipes ≤ max_pipes)
      × ((c : ℕ) → count c g.pipes + over_by c arm ≡ count c f.pipes + taken_by c arm)
select-Kept t closed f g bounded h = absurd cc
select-Kept t retried f g bounded h =
    let (_, same) = guarded h in
    let e : f.pipes ≡ g.pipes = ap (λ x. x.pipes) same in rw (← e) (bounded, λ c. refl)
select-Kept t (accepted tcp) f g bounded h =
    let (free, same) = guarded h in
    let e : tcp ∷ f.pipes ≡ g.pipes = ap (λ x. x.pipes) same in
    let room = may_accept-lt f free in rw (← e) (omega arith, λ c. omega arith)
select-Kept t accept_failed f g bounded h =
    let (_, same) = guarded h in
    let e : f.pipes ≡ g.pipes = ap (λ x. x.pipes) same in rw (← e) (bounded, λ c. refl)
select-Kept t (finished tcp failed) f g bounded h = elim (Option-cases (without tcp f.pipes)) [
  | inl gone ↦ absurd (cc (rw (gone) at h))
  | inr (rest, found) ↦
      let same : record f { pipes = rest } ≡ g = cc (rw (found) at h) in
      let e : rest ≡ g.pipes = ap (λ x. x.pipes) same in
      let shorter = λ (c : ℕ). without-count c tcp f.pipes found in
      rw (← e) (omega (arith, shorter 0), λ c. omega (arith, shorter c))
]

lost_stays : (ts : List Turn) (g : Forward) → run ts connection_lost ≡ some (forwards g) → ⊥
unfolding run
lost_stays [] g h = cc
lost_stays (t ∷ ts) g h = cc

first-Kept :
    (t : Turn) (ts : List Turn) (f g : Forward)
    → length f.pipes ≤ max_pipes
    → (next : Option Loop) → turn t (forwards f) ≡ next
    → ((x : Forward)
        → length x.pipes ≤ max_pipes
        → run ts (forwards x) ≡ some (forwards g)
        → Kept ts x g)
    → and_then (run ts) next ≡ some (forwards g)
    → Kept (t ∷ ts) f g
unfolding taken over
first-Kept t ts f g bounded none e again h = absurd cc
first-Kept t ts f g bounded (some connection_lost) e again h = absurd (lost_stays ts g h)
first-Kept t ts f g bounded (some (forwards x)) e again h =
    let (small, one) = select-Kept t t.arm f x bounded e in
    let rest : Kept ts x g = again x small h in
    record { bounded = rest.bounded; counted = λ c. omega (arith, one c, rest.counted c) }

-- However its turns fall, a forward that runs holds 128 local connections at most, and it has lost none:
-- each connection it took is still held, unless a pipe of its own was over.
pub run-Kept :
    (ts : List Turn) (f g : Forward)
    → length f.pipes ≤ max_pipes
    → run ts (forwards f) ≡ some (forwards g)
    → Kept ts f g
unfolding run taken over
run-Kept [] f g bounded h =
    let e : f.pipes ≡ g.pipes = ap (λ x. x.pipes) (forwards_injective h) in
    record { bounded = rw (← e) bounded; counted = λ c. rw (← e) refl }
run-Kept (t ∷ ts) f g bounded h =
    first-Kept t ts f g bounded (turn t (forwards f)) refl (λ x. run-Kept ts x g) h
