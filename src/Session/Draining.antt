-- ===== src/Session/Draining.antt =====
-- The end of a session that no longer takes streams.
use tightbeam.Base.{
  ℕ, suc, ◌+◌, ◌*◌, ◌≤◌, ◌≡◌, refl, Bool, true, false, List, [], ◌∷◌, ◌++◌, arith, length, sum_by,
  sum_by_middle, ◌⊎◌, inl, inr,
}
use tightbeam.Base.Results.{Result, ok, err}
use tightbeam.Permits.{Semaphores, Pools}
use tightbeam.Gate.{Gates, HostRefusal}
use tightbeam.Admit.{AdmittedStream}
use tightbeam.Session.{
  Pipe, reading, serving, Session, Served, Step, ruled_pipe, at, accepts, accept_fails, rules, ends,
  sweeps, breaks,
}

-- A stream that reads is ruled on and ends, one that is served ends.
abbrev pub steps_left : Pipe → ℕ
steps_left reading = 2
steps_left (serving o) = 1

abbrev pub work : Session → ℕ
work s = sum_by steps_left s.pipes

work-le : (pipes : List Pipe) → sum_by steps_left pipes ≤ 2 * length pipes
work-le [] = omega arith
work-le (reading ∷ pipes) = omega (arith, work-le pipes)
work-le (serving o ∷ pipes) = omega (arith, work-le pipes)

module _ (gates : Gates) (semaphores : Semaphores) where
  -- Every step counts but a sweep, which the clock takes.
  abbrev pub cost : {s t : Served gates semaphores} → Step gates semaphores s t → ℕ
  cost (accepts room) = 1
  cost (accept_fails room) = 1
  cost (rules before after now admission peer presented service r h) = 1
  cost (ends before after pipe) = 1
  cost (sweeps s enabled) = 0

  -- A run, with the steps that count.
  pub data Run : ℕ → Served gates semaphores → Served gates semaphores → Type 0 where
    done : {s : Served gates semaphores} → Run 0 s s
    next :
        {n : ℕ} {s t u : Served gates semaphores} (step : Step gates semaphores s t)
        → Run n t u
        → Run (cost step + n) s u

  ruled_work :
      (before after : List Pipe) (r : Result HostRefusal (AdmittedStream gates semaphores))
      → sum_by steps_left (before ++ (ruled_pipe gates semaphores r ++ after))
        ≤ suc (sum_by steps_left (before ++ after))
  ruled_work before after (err refusal) = omega arith
  ruled_work before after (ok s) =
      omega (arith, sum_by_middle steps_left before (serving s.stream_permit) after)

  drain :
      {s t : Served gates semaphores} (step : Step gates semaphores s t)
      → s.session.accepting ≡ false
      → (cost step + work (t.session) ≤ work (s.session)) × (t.session.accepting ≡ false)
  drain (accepts room) closed = absurd cc
  drain (accept_fails room) closed = absurd cc
  drain (rules before after now admission peer presented service r h) closed = (
    omega (arith, ruled_work before after r.1, sum_by_middle steps_left before reading after),
    closed,
  )
  drain (ends before after reading) closed =
      (omega (arith, sum_by_middle steps_left before reading after), closed)
  drain (ends before after (serving o)) closed =
      (omega (arith, sum_by_middle steps_left before (serving o) after), closed)
  drain (sweeps s enabled) closed = (omega arith, closed)

  Run-work :
      {n : ℕ} {s t : Served gates semaphores}
      → Run n s t
      → s.session.accepting ≡ false
      → (n + work (t.session) ≤ work (s.session)) × (t.session.accepting ≡ false)
  Run-work done closed = (omega arith, closed)
  Run-work (next step run) closed =
      let (less, closed') = drain step closed in
      let (rest, closed'') = Run-work run closed' in (omega (arith, less, rest), closed'')

  -- What is left of a session that takes no more streams.
  abbrev pub Leads : Served gates semaphores → Type 0
  Leads t =
      ((t.session.pipes ≡ []) × (breaks t.session ≡ true))
      ⊎ ((u : Served gates semaphores) × (step : Step gates semaphores t u) × (cost step ≡ 1))

  at-Leads :
      (pools : Pools semaphores) (held accepting : Bool) (pipes : List Pipe)
      → accepting ≡ false
      → Leads (at gates semaphores pools held accepting pipes)
  unfolding breaks
  at-Leads pools held accepting [] closed = inl (refl, rw (closed) refl)
  at-Leads pools held accepting (pipe ∷ pipes) closed = inr (_, ends [] pipes pipe, refl)

  -- Once a session takes no more streams, no run of it has more steps than twice the number of its
  -- streams, the sweeps not counted; and wherever a run has led, either no stream is left and no arm of
  -- the loop is enabled, a sweep's neither, so that the loop breaks, or some stream can still take a step.
  pub Run-bounded :
      {n : ℕ} {s t : Served gates semaphores}
      → Run n s t
      → s.session.accepting ≡ false
      → (n ≤ 2 * length s.session.pipes) × Leads t
  Run-bounded {n} {s} {t} run closed =
      let (used, closed') = Run-work run closed in
      (
        omega (arith, used, work-le s.session.pipes),
        at-Leads (t.pools) (t.session.held) (t.session.accepting) (t.session.pipes) closed',
      )
