-- ===== src/Forward/Paced.antt =====
-- When a forward accepts, and that it never gets stuck.
use tightbeam.Base.{
  ap, ==-self, ℕ, ◌+◌, ◌<◌, ◌≤◌, ◌≡◌, ◌≢◌, refl, Bool, true, false, some, List, [], ◌∷◌, length,
  All, arith, Bool-cases, Option-cases, inl, inr, subst, leb, lt→leb, le→leb, ltb, ltb→le,
}
use tightbeam.Forward.{
  Forward, Arm, closed, retried, accepted, accept_failed, finished, Turn, Loop, forwards,
  connection_lost, without, may_accept, select, turn, run, accept_retry, max_pipes,
}

-- The arms that a pause and a full forward disable.
abbrev pub is_accept : Arm → Bool
is_accept closed = false
is_accept retried = false
is_accept (accepted tcp) = true
is_accept accept_failed = true
is_accept (finished tcp failed) = false

-- A loop that is over, or that waits until an instant.
abbrev Waits : ℕ → Loop → Type 0
Waits until connection_lost = Unit {0}
Waits until (forwards f) = (f.paused ≡ true) × (f.retry ≡ until)

select-Waits :
    (until : ℕ) (t : Turn) (arm : Arm) (f : Forward) {next : Loop}
    → t.now < until
    → Waits until (forwards f)
    → select t arm f ≡ some next
    → (is_accept arm ≡ false) × Waits until next
select-Waits until t closed f early w h =
    let e : ◌≡◌ {A = Loop} connection_lost _ = cc h in (refl, subst (Waits until) e tt)
select-Waits until t retried f early w h =
    let due : leb f.retry t.now ≡ false = lt→leb f.retry t.now (omega (arith, w.1)) in
    absurd (cc (rw (w.0, due) at h))
select-Waits until t (accepted tcp) f early w h = absurd (cc (rw (w.0) at h))
select-Waits until t accept_failed f early w h = absurd (cc (rw (w.0) at h))
select-Waits until t (finished tcp failed) f early w h = elim (Option-cases (without tcp f.pipes)) [
  | inl gone ↦ absurd (cc (rw (gone) at h))
  | inr (rest, found) ↦
      let e : forwards (record f { pipes = rest }) ≡ _ = cc (rw (found) at h) in
      (refl, subst (Waits until) e w)
]

run-Waits :
    (until : ℕ) (ts : List Turn) (from : Loop) {loop : Loop}
    → All (λ t. t.now < until) ts
    → Waits until from
    → run ts from ≡ some loop
    → All (λ t. is_accept t.arm ≡ false) ts
unfolding run
run-Waits until [] from early w h = tt
run-Waits until (t ∷ ts) connection_lost early w h = absurd (cc h)
run-Waits until (t ∷ ts) (forwards f) early w h = elim (Option-cases (select t t.arm f)) [
  | inl never ↦ absurd (cc (rw (never) at h))
  | inr (next, found) ↦
      let (other, still) = select-Waits until t t.arm f early.0 w found in
      (other, run-Waits until ts next early.1 still (rw (found) at h))
]

-- After an accept that fails, a forward makes no other for a tenth of a second, whatever its pipes and
-- its session do meanwhile.
pub run-paced :
    (now : ℕ) (ts : List Turn) (f : Forward) (loop : Loop)
    → run (record { now = now; arm = accept_failed } ∷ ts) (forwards f) ≡ some loop
    → All (λ t. t.now < now + accept_retry) ts
    → All (λ t. is_accept t.arm ≡ false) ts
unfolding run
run-paced now ts f loop h early = elim (Bool-cases (may_accept f)) [
  | inr full ↦ absurd (cc (rw (full) at h))
  | inl free ↦
      run-Waits (now + accept_retry) ts
        (forwards (record f { paused = true; retry = now + accept_retry })) early (refl, refl)
        (rw (free) at h)
]

-- A forward whose session lives is never stuck: at any instant from the end of its last pause on, an
-- arm other than the loss of the session can be ready. It takes a local connection unless it holds 128.
pub turn_ready :
    (now : ℕ) (f : Forward)
    → f.retry ≤ now
    → (arm : Arm) × (next : Forward) × (arm ≢ closed)
      × (f.paused ≡ false → length f.pipes < max_pipes → is_accept arm ≡ true)
      × (turn (record { now = now; arm = arm }) (forwards f) ≡ some (forwards next))
unfolding without
turn_ready now f due = elim (Bool-cases f.paused) [
  | inl paused ↦ (
    retried,
    record f { paused = false },
    λ e. cc e,
    λ u r. cc (u, paused),
    rw (paused, le→leb f.retry now due) refl,
  )
  | inr open_ ↦ elim (Bool-cases (ltb (length f.pipes) max_pipes)) [
    | inl room ↦ (
      accepted 0,
      record f { pipes = 0 ∷ f.pipes },
      λ e. cc e,
      λ u r. refl,
      rw (open_, room) refl,
    )
    | inr full ↦ by_pipes f.pipes refl (ltb→le (length f.pipes) max_pipes full)
  ]
]
  where
    by_pipes :
        (pipes : List ℕ)
        → f.pipes ≡ pipes
        → max_pipes ≤ length f.pipes
        → (arm : Arm) × (next : Forward) × (arm ≢ closed)
          × (f.paused ≡ false → length f.pipes < max_pipes → is_accept arm ≡ true)
          × (turn (record { now = now; arm = arm }) (forwards f) ≡ some (forwards next))
    by_pipes [] e h = absurd (omega (arith, ap length e))
    by_pipes (p ∷ ps) e h = (
      finished p false,
      record f { pipes = ps },
      λ e'. cc e',
      λ u r. absurd (omega arith),
      rw (e, ==-self p) refl,
    )
