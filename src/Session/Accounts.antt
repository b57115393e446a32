-- ===== src/Session/Accounts.antt =====
-- What a step of a session does to the permits.
use tightbeam.Base.{
  ℕ, suc, ◌+◌, ◌≤◌, ◌<◌, ◌≡◌, refl, subst, true, Option, none, some, List, ◌++◌, arith, length,
  length_middle, sum_by, sum_by_middle, ◌⊎◌, inl, inr,
}
use tightbeam.Base.Results.{Result, ok, err}
use tightbeam.Permits.{Semaphores, Permit, public_stream, proven_stream, max_streams_per_session}
use tightbeam.Permits.Counts.{bit, holds, free, free-give_back, sessions-give_back}
use tightbeam.Gate.{Gates, HostRefusal}
use tightbeam.Admit.{AdmittedStream}
use tightbeam.Admit.Counts.{Conserved, admit-Conserved, permit_of}
use tightbeam.Session.{
  Pipe, reading, serving, Session, Served, Step, permit, ruled_pipe, accepts, accept_fails, rules,
  ends, sweeps,
}

abbrev pub pipe_holds : Permit → Pipe → ℕ
pipe_holds p pipe = holds p (permit pipe)

abbrev pub session_holds : Permit → Session → ℕ
session_holds p s = sum_by (pipe_holds p) s.pipes

abbrev pub session_bit : Session → ℕ
session_bit s = bit s.held

pub record IsSound (s : Session) : Type 0 where
  pub few : length s.pipes ≤ max_streams_per_session
  pub classified : 0 < session_holds public_stream s → s.held ≡ true

holds_cases : (p : Permit) (o : Option Permit) → (holds p o ≡ 1) ⊎ (holds p o ≡ 0)
holds_cases p none = inr refl
holds_cases public_stream (some public_stream) = inl refl
holds_cases public_stream (some proven_stream) = inr refl
holds_cases proven_stream (some public_stream) = inr refl
holds_cases proven_stream (some proven_stream) = inl refl

module _ (gates : Gates) (semaphores : Semaphores) where
  open semaphores use {available}

  ruled_holds :
      (p : Permit) (before after : List Pipe)
      (r : Result HostRefusal (AdmittedStream gates semaphores))
      → sum_by (pipe_holds p) (before ++ (ruled_pipe gates semaphores r ++ after))
        ≡ holds p (permit_of gates semaphores r) + sum_by (pipe_holds p) (before ++ after)
  ruled_holds p before after (err refusal) = omega arith
  ruled_holds p before after (ok s) =
      sum_by_middle (pipe_holds p) before (serving s.stream_permit) after

  ruled_length :
      (before after : List Pipe) (r : Result HostRefusal (AdmittedStream gates semaphores))
      → length (before ++ (ruled_pipe gates semaphores r ++ after)) ≤ suc (length (before ++ after))
  ruled_length before after (err refusal) = omega arith
  ruled_length before after (ok s) =
      omega (arith, length_middle before (serving s.stream_permit) after)

  pub record Kept (s t : Served gates semaphores) : Type 0 where
    pub streams :
        (p : Permit)
        → free semaphores (t.pools) p + session_holds p (t.session)
          ≡ free semaphores (s.pools) p + session_holds p (s.session)
    pub sessions :
        available t.pools.sessions + session_bit (t.session)
        ≡ available s.pools.sessions + session_bit (s.session)

  pub Step-Kept : {s t : Served gates semaphores} → Step gates semaphores s t → Kept s t
  Step-Kept (accepts room) = record { streams = λ p. omega arith; sessions = refl }
  Step-Kept (sweeps s enabled) = record { streams = λ p. refl; sessions = refl }
  Step-Kept (accept_fails room) = record { streams = λ p. refl; sessions = refl }
  Step-Kept (ends {pools} before after pipe) = record {
    streams = λ p. omega (
      arith,
      free-give_back semaphores (permit pipe) pools p,
      sum_by_middle (pipe_holds p) before pipe after,
    );
    sessions = rw (sessions-give_back semaphores (permit pipe) pools) refl;
  }
  Step-Kept (rules {pools} {held} before after now admission peer presented service r h) =
      let c : Conserved gates semaphores (record { pools = pools; held = held }) r =
        subst (Conserved gates semaphores (record { pools = pools; held = held })) h (
          admit-Conserved gates semaphores now admission peer presented service
            (record { pools = pools; held = held })) in
      record {
        streams = λ p. omega (
          arith,
          c.streams p,
          ruled_holds p before after r.1,
          sum_by_middle (pipe_holds p) before reading after,
        );
        sessions = c.sessions;
      }

  pub Step-IsSound :
      {s t : Served gates semaphores}
      → Step gates semaphores s t
      → IsSound (s.session)
      → IsSound (t.session)
  Step-IsSound (accepts {pools} {held} {pipes} room) sound = record {
    few = omega (arith, room);
    classified = λ some_public. sound.classified (omega (arith, some_public));
  }
  Step-IsSound (sweeps s enabled) sound = sound
  Step-IsSound (accept_fails room) sound = record { few = sound.few; classified = sound.classified }
  Step-IsSound (ends {pools} before after pipe) sound = record {
    few = omega (arith, sound.few, length_middle before pipe after);
    classified = λ some_public.
        sound.classified
          (omega (arith, some_public, sum_by_middle (pipe_holds public_stream) before pipe after));
  }
  Step-IsSound (rules {pools} {held} before after now admission peer presented service r h) sound =
      let c : Conserved gates semaphores (record { pools = pools; held = held }) r =
        subst (Conserved gates semaphores (record { pools = pools; held = held })) h (
          admit-Conserved gates semaphores now admission peer presented service
            (record { pools = pools; held = held })) in
      record {
        few =
            omega
              (arith, sound.few, length_middle before reading after, ruled_length before after r.1);
        classified = λ some_public.
            elim (holds_cases public_stream (permit_of gates semaphores r.1)) [
              | inl one ↦ c.classified one
              | inr none_held ↦ c.stays (
                  sound.classified (
                    omega (
                      arith,
                      some_public,
                      none_held,
                      ruled_holds public_stream before after r.1,
                      sum_by_middle (pipe_holds public_stream) before reading after,
                    )))
            ];
      }
