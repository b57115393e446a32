-- ===== src/Admit/Counts.antt =====
-- What an admission does to the permits of the node and of the session.
use tightbeam.Base.{
  ℕ, ◌+◌, ◌≡◌, refl, sym, ap, ◌∙◌, not, ◌&&◌, true, Option, none, some, arith, inl, inr,
  Option-cases,
}
use tightbeam.Base.Bytes.{Text}
use tightbeam.Base.Results.{Result, ok, err, Result-cases, step_ok, ok-injective}
use tightbeam.Permits.{Semaphores, Permit, public_stream, proven_stream, enter, give_back}
use tightbeam.Permits.Counts.{bit, holds, free, enter_keeps}
use tightbeam.Gate.{Gates, HostRefusal, peer_not_proven}
use tightbeam.Security.{peer_proven}
use tightbeam.Admit.{
  SessionPeer, Presented, AdmittedStream, Admission, Slots, Ruled, take_public, admit_public,
  admit_known, admit_gated, admit, proven_key, parsed, badge, ruling_of,
}
use tightbeam.Admit.Branches.{admit_cases, pass_unless}

each_permit : (P : Permit → Type 0) → P public_stream → P proven_stream → (p : Permit) → P p
each_permit P a b public_stream = a
each_permit P a b proven_stream = b

module _ (gates : Gates) (semaphores : Semaphores) where
  open semaphores use {available, try_acquire, refuses, takes, returns}

  -- The permit of a stream that was admitted.
  abbrev pub permit_of : Result HostRefusal (AdmittedStream gates semaphores) → Option Permit
  permit_of (err refusal) = none
  permit_of (ok s) = s.stream_permit

  pub record Conserved (before : Slots gates semaphores) (r : Ruled gates semaphores) : Type 0 where
    pub streams :
        (p : Permit)
        → free semaphores (r.0.pools) p + holds p (permit_of r.1) ≡ free semaphores (before.pools) p
    pub sessions :
        available r.0.pools.sessions + bit r.0.held
        ≡ available before.pools.sessions + bit before.held
    pub classified : holds public_stream (permit_of r.1) ≡ 1 → r.0.held ≡ true
    pub stays : before.held ≡ true → r.0.held ≡ true

  unmoved :
      (slots : Slots gates semaphores) (r : Result HostRefusal (AdmittedStream gates semaphores))
      → permit_of r ≡ none
      → Conserved slots (slots, r)
  unmoved slots r e = record {
    streams = λ p. rw (e) (omega arith);
    sessions = refl;
    classified = λ h. absurd (cc (e, h));
    stays = λ h. h;
  }

  take_public-Conserved :
      (key : ℕ) (witness : gates.Admitted) (slots : Slots gates semaphores)
      → Conserved slots (take_public gates semaphores key witness slots)
  unfolding take_public give_back
  take_public-Conserved key witness slots = elim (Option-cases (try_acquire slots.pools.streams)) [
    | inl e ↦ rw (e, take_public) (unmoved slots (err _) refl)
    | inr (t, e) ↦ elim (Option-cases (enter semaphores slots.held slots.pools.sessions)) [
      | inl full ↦
          rw (e, full, take_public)
            (record {
              streams =
                  each_permit
                    (λ p.
                      free semaphores (record (slots.pools) { streams = semaphores.release t }) p
                        + 0
                      ≡ free semaphores (slots.pools) p)
                    (omega (arith, takes slots.pools.streams t e, returns t)) (omega arith);
              sessions = refl;
              classified = λ h. absurd cc;
              stays = λ h. h;
            })
      | inr ((held, left), room) ↦
          rw (e, room, take_public)
            (record {
              streams =
                  each_permit
                    (λ p.
                      free semaphores (record (slots.pools) { streams = t; sessions = left }) p
                        + holds p (some public_stream)
                      ≡ free semaphores (slots.pools) p)
                    (omega (arith, takes slots.pools.streams t e)) (omega arith);
              sessions = (enter_keeps semaphores slots.held held slots.pools.sessions left room).0;
              classified =
                  λ h. (enter_keeps semaphores slots.held held slots.pools.sessions left room).1;
              stays =
                  λ h. (enter_keeps semaphores slots.held held slots.pools.sessions left room).1;
            })
    ]
  ]

  admit_public-Conserved :
      (key : ℕ) (service : Text) (slots : Slots gates semaphores)
      → Conserved slots (admit_public gates semaphores key service slots)
  unfolding admit_public
  admit_public-Conserved key service slots =
      elim (gates.admit_witnessed gates.open_gate key none service)
        as (λ x. Conserved slots (elim x [
          | err ruling ↦ (slots, err (HostRefusal.gate ruling))
          | ok witness ↦ take_public gates semaphores key witness slots
        ])) [
          | err ruling ↦ unmoved slots (err (HostRefusal.gate ruling)) refl
          | ok witness ↦ take_public-Conserved key witness slots
        ]

  admit_known-Conserved :
      (now : ℕ) (admission : Admission gates semaphores) (peer : SessionPeer) (key : ℕ)
      (service : Text) (slots : Slots gates semaphores)
      → Conserved slots (admit_known gates semaphores now admission peer key service slots)
  unfolding admit_known
  admit_known-Conserved now admission peer key service slots =
      elim (Result-cases (proven_key gates semaphores admission peer key service)) [
        | inl (refusal, e) ↦ rw (e, admit_known) (unmoved slots (err refusal) refl)
        | inr (found, e) ↦ elim (Option-cases (try_acquire slots.pools.proven)) [
          | inl none_left ↦ rw (e, none_left, admit_known) (unmoved slots (err _) refl)
          | inr (t, some_left) ↦
              rw (e, some_left, admit_known)
                (record {
                  streams =
                      each_permit
                        (λ p.
                          free semaphores (record (slots.pools) { proven = t }) p
                            + holds p (some proven_stream)
                          ≡ free semaphores (slots.pools) p)
                        (omega arith) (omega (arith, takes slots.pools.proven t some_left));
                  sessions = refl;
                  classified = λ h. absurd cc;
                  stays = λ h. h;
                })
        ]
      ]

  -- A stream under the base gate holds no permit.
  admit_gated_free :
      (base : gates.Gate) (peer : SessionPeer) (key : ℕ) (presented : Presented) (service : Text)
      → permit_of (admit_gated gates semaphores base peer key presented service) ≡ none
  unfolding admit_gated
  admit_gated_free base peer key presented service =
      elim (Result-cases (admit_gated gates semaphores base peer key presented service)) [
        | inl (refusal, e) ↦ rw (e) refl
        | inr (s, e) ↦ ap permit_of e ∙ no_permit s e
      ]
    where
      no_permit :
          (s : AdmittedStream gates semaphores)
          → admit_gated gates semaphores base peer key presented service ≡ ok s
          → s.stream_permit ≡ none
      no_permit s e =
          pass_unless (not (gates.wants_capability base && not (peer_proven peer.security)))
            (peer_not_proven peer.security.peer) _ e
            (λ passed e1. step_ok (parsed gates semaphores presented.capability) _ e1 (λ cap p1 e2.
              step_ok (badge gates semaphores presented.membership cap) _ e2 (λ membership p2 e3.
                step_ok (ruling_of gates semaphores base key service cap membership) _ e3
                  (λ w p3 e4. ap (λ x. x.stream_permit) (sym (ok-injective e4))))))

  -- However it ends, an admission keeps the sum of the permits that are free and those that are held.
  -- A stream holds at most one. A session holds its permit from its first public stream on.
  pub admit-Conserved :
      (now : ℕ) (admission : Admission gates semaphores) (peer : SessionPeer)
      (presented : Presented) (service : Text) (slots : Slots gates semaphores)
      → Conserved slots (admit gates semaphores now admission peer presented service slots)
  admit-Conserved now admission peer presented service slots =
      admit_cases gates semaphores (Conserved slots) now admission peer presented service slots
        (unmoved slots (err _) refl) (λ key hit. admit_public-Conserved key service slots)
        (λ key miss only. admit_known-Conserved now admission peer key service slots)
        (λ key e miss family.
          unmoved slots (admit_gated gates semaphores admission.gate peer key presented service)
            (admit_gated_free admission.gate peer key presented service))
