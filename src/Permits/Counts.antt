-- ===== src/Permits/Counts.antt =====
-- The permits that are free and those that are held.
use tightbeam.Base.{
  ℕ, suc, ◌+◌, ◌≡◌, refl, Bool, true, false, Option, none, some, arith, inl, inr, Option-cases,
}
use tightbeam.Permits.{
  Semaphores, Pools, Permit, public_stream, proven_stream, enter, give_back, leave,
}

abbrev pub bit : Bool → ℕ
bit false = 0
bit true = 1

-- How many permits of a pool a stream holds.
abbrev pub holds : Permit → Option Permit → ℕ
holds p none = 0
holds public_stream (some public_stream) = 1
holds public_stream (some proven_stream) = 0
holds proven_stream (some public_stream) = 0
holds proven_stream (some proven_stream) = 1

module _ (semaphores : Semaphores) where
  open semaphores use {available, try_acquire, release, starts, refuses, takes, returns}

  abbrev pub free : Pools semaphores → Permit → ℕ
  free pools public_stream = available pools.streams
  free pools proven_stream = available pools.proven

  pub enter_keeps :
      (held after : Bool) (sessions left : semaphores.Semaphore)
      → enter semaphores held sessions ≡ some (after, left)
      → (available left + bit after ≡ available sessions + bit held) × (after ≡ true)
  unfolding enter
  enter_keeps true after sessions left h = (cc, cc)
  enter_keeps false after sessions left h = elim (Option-cases (try_acquire sessions)) [
    | inl e ↦ absurd (cc (rw (e, enter) at h))
    | inr (t, e) ↦ taken t (takes sessions t e) (rw (e, enter) at h)
  ]
    where
      taken :
          (t : semaphores.Semaphore)
          → available sessions ≡ suc (available t)
          → ◌≡◌ {A = Option (Bool × semaphores.Semaphore)} (some (true, t)) (some (after, left))
          → (available left + bit after ≡ available sessions + 0) × (after ≡ true)
      taken t count same =
          let e : left ≡ t = cc same in
          let e' : after ≡ true = cc same in (rw (e, e') (omega (arith, count)), e')

  pub free-give_back :
      (o : Option Permit) (pools : Pools semaphores) (p : Permit)
      → free (give_back semaphores o pools) p ≡ free pools p + holds p o
  unfolding give_back
  free-give_back none pools p = omega arith
  free-give_back (some public_stream) pools public_stream = omega (arith, returns pools.streams)
  free-give_back (some public_stream) pools proven_stream = omega arith
  free-give_back (some proven_stream) pools public_stream = omega arith
  free-give_back (some proven_stream) pools proven_stream = omega (arith, returns pools.proven)

  pub sessions-give_back :
      (o : Option Permit) (pools : Pools semaphores)
      → (give_back semaphores o pools).sessions ≡ pools.sessions
  unfolding give_back
  sessions-give_back none pools = refl
  sessions-give_back (some public_stream) pools = refl
  sessions-give_back (some proven_stream) pools = refl

  pub leave_returns :
      (held : Bool) (pools : Pools semaphores)
      → available (leave semaphores held pools).sessions ≡ available pools.sessions + bit held
  unfolding leave
  leave_returns true pools = omega (arith, returns pools.sessions)
  leave_returns false pools = omega arith

  pub free-leave :
      (held : Bool) (pools : Pools semaphores) (p : Permit)
      → free (leave semaphores held pools) p ≡ free pools p
  unfolding leave
  free-leave true pools public_stream = refl
  free-leave true pools proven_stream = refl
  free-leave false pools p = refl
