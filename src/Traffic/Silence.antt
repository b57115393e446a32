-- ===== src/Traffic/Silence.antt =====
-- Which streams the deadline drops.
use tightbeam.Base.{
  ℕ, ◌+◌, ◌-◌, ◌≡◌, ◌↔◌, ◌⊎◌, some, none, refl, sym, true, false, Option, List, [], ◌∷◌, leb,
  if◌then◌else◌, arith, le→leb, leb→le, leb→lt, Bool-cases, inl, inr,
}
use native.Mathlib.Nat.{zero-add}
use tightbeam.Traffic.{
  Poll, polled_read, polled_write, polled_write_vectored, polled_flush, polled_shutdown, WritePoll,
  pending, failed, wrote, watched, Timed, traffic_by, carried, dropped, finished_by, serve_prepared,
  serve_until, first_traffic_timeout,
}

abbrev pub written : WritePoll → ℕ
written pending = 0
written failed = 0
written (wrote n) = n

-- The bytes that a poll moved.
abbrev pub bytes_of : Poll → ℕ
bytes_of (polled_read before after) = after - before
bytes_of (polled_write result) = written result
bytes_of (polled_write_vectored result) = written result
bytes_of polled_flush = 0
bytes_of polled_shutdown = 0

-- Both directions together.
abbrev pub bytes_by : ℕ → List Timed → ℕ
bytes_by deadline [] = 0
bytes_by deadline (t ∷ ts) =
    let rest = bytes_by deadline ts in
    if leb t.instant deadline then bytes_of t.poll + rest else rest

watched-true : (p : Poll) → watched p true ≡ true
unfolding watched
watched-true (polled_read before after) = refl
watched-true (polled_write r) = refl
watched-true (polled_write_vectored r) = refl
watched-true polled_flush = refl
watched-true polled_shutdown = refl

carried_iff : (r : WritePoll) → carried r ≡ leb 1 (written r)
carried_iff pending = refl
carried_iff failed = refl
carried_iff (wrote n) = refl

watched_bytes : (p : Poll) → watched p false ≡ leb 1 (bytes_of p)
unfolding watched
watched_bytes (polled_read before after) = ground arith
watched_bytes (polled_write r) = carried_iff r
watched_bytes (polled_write_vectored r) = carried_iff r
watched_bytes polled_flush = refl
watched_bytes polled_shutdown = refl

traffic_true : (deadline : ℕ) (ts : List Timed) → traffic_by deadline ts true ≡ true
unfolding traffic_by
traffic_true deadline [] = refl
traffic_true deadline (t ∷ ts) = elim (Bool-cases (leb t.instant deadline)) [
  | inl early ↦ rw (early, watched-true t.poll) (traffic_true deadline ts)
  | inr late ↦ rw (late) (traffic_true deadline ts)
]

traffic_bytes :
    (deadline : ℕ) (ts : List Timed) → traffic_by deadline ts false ≡ leb 1 (bytes_by deadline ts)
unfolding traffic_by
traffic_bytes deadline [] = refl
traffic_bytes deadline (t ∷ ts) = elim (Bool-cases (leb t.instant deadline)) [
  | inr late ↦ rw (late) (traffic_bytes deadline ts)
  | inl early ↦ elim (Bool-cases (leb 1 (bytes_of t.poll))) [
    | inl some_bytes ↦
        rw (early, watched_bytes t.poll, some_bytes, traffic_true deadline ts)
          (sym (
            le→leb 1 (bytes_of t.poll + bytes_by deadline ts)
              (omega (arith, leb→le 1 (bytes_of t.poll) some_bytes))))
    | inr none_moved ↦
        let e : bytes_of t.poll ≡ 0 = omega (arith, leb→lt 1 (bytes_of t.poll) none_moved) in
        rw (early, watched_bytes t.poll, none_moved, e, zero-add) (traffic_bytes deadline ts)
  ]
]

-- Without a deadline of its own.
serve_prepared-dropped :
    (polls : List Timed) (finish : Option ℕ)
    → (serve_prepared polls finish ≡ dropped) ↔ (
        (finished_by first_traffic_timeout finish ≡ false)
        × (bytes_by first_traffic_timeout polls ≡ 0))
unfolding serve_prepared
serve_prepared-dropped polls finish = elim (Bool-cases (finished_by first_traffic_timeout finish)) [
  | inl done ↦ rw (done) ((λ h. absurd cc), (λ h. absurd (cc (h.0))))
  | inr running ↦ elim (Bool-cases (leb 1 (bytes_by first_traffic_timeout polls))) [
    | inl moved ↦
        rw (running, traffic_bytes first_traffic_timeout polls, moved)
          ((λ h. absurd cc), (λ h. absurd (omega (arith, leb→le 1 _ moved, h.1))))
    | inr silent ↦
        rw (running, traffic_bytes first_traffic_timeout polls, silent)
          ((λ h. (refl, omega (arith, leb→lt 1 _ silent))), (λ h. refl))
  ]
]

-- The handler has not finished by the deadline of a proven-only route.
abbrev pub IsOverdue : Option ℕ → Option ℕ → Type 0
IsOverdue deadline finish = (d : ℕ) × (deadline ≡ some d) × (finished_by d finish ≡ false)

-- An admitted stream of a handler is dropped exactly when its handler has not finished by the deadline
-- for traffic and not one byte has moved by then, in either direction, or when its route is proven-only
-- and its handler has not finished by the deadline that the admission set, whatever has moved.
pub serve_until-dropped :
    (deadline : Option ℕ) (polls : List Timed) (finish : Option ℕ)
    → (serve_until deadline polls finish ≡ dropped) ↔ (
        ((finished_by first_traffic_timeout finish ≡ false)
          × (bytes_by first_traffic_timeout polls ≡ 0))
        ⊎ IsOverdue deadline finish)
unfolding serve_until
serve_until-dropped none polls finish = (
  λ h. inl ((serve_prepared-dropped polls finish).0 h),
  λ h. elim h [
    | inl silent ↦ (serve_prepared-dropped polls finish).1 silent
    | inr (d, is, late) ↦ absurd (cc is)
  ],
)
serve_until-dropped (some d) polls finish = elim (Bool-cases (finished_by d finish)) [
  | inr late ↦ rw (late) ((λ h. inr (d, refl, late)), (λ h. refl))
  | inl done ↦ rw (done) (
    (λ h. inl ((serve_prepared-dropped polls finish).0 h)),
    (λ h. elim h [
      | inl silent ↦ (serve_prepared-dropped polls finish).1 silent
      | inr (d', is, late) ↦ absurd (not_both d d' is done late)
    ]),
  )
]
  where
    not_both :
        (a b : ℕ)
        → ◌≡◌ {A = Option ℕ} (some a) (some b)
        → finished_by a finish ≡ true
        → finished_by b finish ≡ false
        → ⊥
    not_both a b is done late = let e : a ≡ b = cc is in cc (rw (e) at done, late)
