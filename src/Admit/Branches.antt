-- ===== src/Admit/Branches.antt =====
-- The three branches of an admission, and what a stream that each admits has passed.
use tightbeam.Base.{
  ℕ, ◌≡◌, refl, Bool, true, false, not, ◌&&◌, inl, inr, some, Bool-cases, Option-cases,
}
use tightbeam.Base.Bytes.{Text}
use tightbeam.Base.Results.{Result, ok, err, ◌>>◌}
use tightbeam.Security.{peer_proven}
use tightbeam.Router.{get}
use tightbeam.Permits.{Semaphores}
use tightbeam.Gate.{Gates, peer_key, peer_not_proven}
use tightbeam.Admit.{
  SessionPeer, Presented, AdmittedStream, Admission, Slots, Ruled, is_opened, proven_route,
  refuse_unless, admit_public, admit_known, proven_key, admit_gated, admit_key, admit,
}

-- Inversion of a check that passed.
pub pass_unless :
    {E A P : Type 0} (flag : Bool) (refusal : E) (rest : Result E A) {a : A}
    → (refuse_unless flag refusal >> rest) ≡ ok a
    → (flag ≡ true → rest ≡ ok a → P)
    → P
pass_unless true refusal rest h k = k refl h
pass_unless false refusal rest h k = absurd cc

module _ (gates : Gates) (semaphores : Semaphores) where
  -- An admission is refused for its key, or one of three branches rules on it.
  pub admit_cases :
      (P : Ruled gates semaphores → Type 0) (now : ℕ) (admission : Admission gates semaphores)
      (peer : SessionPeer) (presented : Presented) (service : Text) (slots : Slots gates semaphores)
      → P (slots, err peer_key)
      → ((key : ℕ)
          → is_opened gates semaphores admission service ≡ true
          → P (admit_public gates semaphores key service slots))
      → ((key : ℕ)
          → is_opened gates semaphores admission service ≡ false
          → proven_route (get admission.routes service) ≡ true
          → P (admit_known gates semaphores now admission peer key service slots))
      → ((key : ℕ)
          → gates.verify_key peer.node ≡ some key
          → is_opened gates semaphores admission service ≡ false
          → proven_route (get admission.routes service) ≡ false
          → P (slots, admit_gated gates semaphores admission.gate peer key presented service))
      → P (admit gates semaphores now admission peer presented service slots)
  unfolding admit admit_key
  admit_cases P now admission peer presented service slots bad opened known gated =
      elim (Option-cases (gates.verify_key peer.node)) [
        | inl e ↦ rw (e, admit) bad
        | inr (key, e) ↦ rw (e, admit) (by_name key e)
      ]
    where
      by_name :
          (key : ℕ)
          → gates.verify_key peer.node ≡ some key
          → P (admit_key gates semaphores now admission peer key presented service slots)
      by_name key e = elim (Bool-cases (is_opened gates semaphores admission service)) [
        | inl hit ↦ rw (hit, admit_key) (opened key hit)
        | inr miss ↦ elim (Bool-cases (proven_route (get admission.routes service))) [
          | inl only ↦ rw (miss, only, admit_key) (known key miss only)
          | inr family ↦ rw (miss, family, admit_key) (gated key e miss family)
        ]
      ]

  -- A proven-only route admits no peer that the transport does not prove.
  pub admit_known-proven :
      (now : ℕ) (admission : Admission gates semaphores) (peer : SessionPeer) (key : ℕ)
      (service : Text) (slots : Slots gates semaphores) (s : AdmittedStream gates semaphores)
      → (admit_known gates semaphores now admission peer key service slots).1 ≡ ok s
      → peer_proven peer.security ≡ true
  unfolding admit_known proven_key
  admit_known-proven now admission peer key service slots s h =
      elim (Bool-cases (peer_proven peer.security)) [
        | inl yes_so ↦ yes_so
        | inr not_so ↦ absurd (cc (rw (refused not_so, admit_known) at h))
      ]
    where
      refused :
          peer_proven peer.security ≡ false
          → proven_key gates semaphores admission peer key service
            ≡ err (peer_not_proven peer.security.peer)
      refused e = rw (e, proven_key) refl

  -- Under a gate that asks for a token, nor does any other route.
  pub admit_gated-proven :
      (admission : Admission gates semaphores) (peer : SessionPeer) (key : ℕ)
      (presented : Presented) (service : Text) (s : AdmittedStream gates semaphores)
      → admit_gated gates semaphores admission.gate peer key presented service ≡ ok s
      → gates.wants_capability admission.gate ≡ true
      → peer_proven peer.security ≡ true
  unfolding admit_gated
  admit_gated-proven admission peer key presented service s h wants =
      pass_unless (not (gates.wants_capability admission.gate && not (peer_proven peer.security)))
        (peer_not_proven peer.security.peer) _ h
        (λ passed rest. elim (Bool-cases (peer_proven peer.security)) [
          | inl yes_so ↦ yes_so
          | inr not_so ↦ absurd (cc (rw (wants, not_so) at passed))
        ])
