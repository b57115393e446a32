-- ===== src/Dispatch/Recalled.antt =====
-- What a recall does to a stream that is served.
use tightbeam.Base.{
  ℕ, ◌≡◌, refl, sym, subst, ap, ◌∙◌, Bool, true, false, not, ◌&&◌, ◌||◌, Option, none, some, List,
  [], ◌∷◌, ◌++◌, any, Bool-cases, inl, inr,
}
use tightbeam.Base.Bytes.{Text}
use tightbeam.Base.Results.{Result, ok, err, step_ok, ok-injective}
use tightbeam.Security.{peer_proven}
use tightbeam.Cut.{
  Unrecorded, Cap, AdmittedChains, recalled, session_cut, denylist, record_all, all_ids,
}
use tightbeam.Cut.Record.{Adds, record_all-Adds}
use tightbeam.Cut.Streams.{Stream, admit_more}
use tightbeam.Cut.Ending.{admit_more-recalled}
use tightbeam.Protocol.Frames.{Details}
use tightbeam.Permits.{Semaphores}
use tightbeam.Gate.{Gates, peer_not_proven}
use tightbeam.Admit.{
  SessionPeer, Presented, AdmittedStream, Slots, admit, admit_gated, parsed, badge, ruling_of,
  listed,
}
use tightbeam.Admit.Branches.{pass_unless}
use tightbeam.Dispatch.{Host, Ready, served, serve_service, resolved, keep_chains, recorded}
use tightbeam.Dispatch.Passed.{dispatch-Passed, answer_served}
use tightbeam.Dispatch.Blind.{IsGated, gate_ruling, admit-gate_ruling}

any-append : (p : ℕ → Bool) (xs ys : List ℕ) → any p xs ≡ true → any p (xs ++ ys) ≡ true
any-append p [] ys h = absurd cc
any-append p (x ∷ xs) ys h = elim (Bool-cases (p x)) [
  | inl here ↦ rw (here) refl
  | inr there ↦ rw (there) (any-append p xs ys (rw (there) at h))
]

or_left : (a b : Bool) → a ≡ true → a || b ≡ true
or_left true b h = refl
or_left false b h = absurd cc

module _ (gates : Gates) (semaphores : Semaphores) (api : Details) where
  -- The token that was presented comes first among what the gate ruled on.
  record Ruled (token : gates.Token) (s : AdmittedStream gates semaphores) : Type 0 where
    unproven : s.proven ≡ none
    rest : List Cap
    ruled : s.ruled ≡ gates.chain token ∷ rest

  admit_gated-Ruled :
      (base : gates.Gate) (peer : SessionPeer) (key : ℕ) (presented : Presented) (service : Text)
      (text : Text) (token : gates.Token) (s : AdmittedStream gates semaphores)
      → gates.wants_capability base ≡ true
      → presented.capability ≡ some text
      → gates.parse text ≡ some token
      → admit_gated gates semaphores base peer key presented service ≡ ok s
      → Ruled token s
  unfolding admit_gated
  admit_gated-Ruled base peer key presented service text token s wants gave parses h =
      pass_unless (not (gates.wants_capability base && not (peer_proven peer.security)))
        (peer_not_proven peer.security.peer) _ h
        (λ passed h1. step_ok (parsed gates semaphores presented.capability) _ h1 (λ cap p1 h2.
          step_ok (badge gates semaphores presented.membership cap) _ h2 (λ membership p2 h3.
            step_ok (ruling_of gates semaphores base key service cap membership) _ h3 (λ w p3 h4.
              let p1' : parsed gates semaphores (some text) ≡ ok cap =
                subst (λ o. parsed gates semaphores o ≡ ok cap) gave p1 in
              let same : some token ≡ cap = ok-injective (rw (parses) at p1') in
              record {
                unproven = ap (λ x. x.proven) (sym (ok-injective h4));
                rest = listed gates semaphores membership;
                ruled = ap (λ x. x.ruled) (sym (ok-injective h4)) ∙ rw (wants, ← same) refl;
              }))))

  gate_ruling-Ruled :
      (base : gates.Gate) (peer : SessionPeer) (presented : Presented) (name : Text)
      (key : Option ℕ) (text : Text) (token : gates.Token) (s : AdmittedStream gates semaphores)
      → gates.wants_capability base ≡ true
      → presented.capability ≡ some text
      → gates.parse text ≡ some token
      → gate_ruling gates semaphores base peer presented name key ≡ ok s
      → Ruled token s
  gate_ruling-Ruled base peer presented name none text token s wants gave parses h = absurd cc
  gate_ruling-Ruled base peer presented name (some key) text token s wants gave parses h =
      admit_gated-Ruled base peer key presented name text token s wants gave parses h

  kept_recalled :
      (token : gates.Token) (s : AdmittedStream gates semaphores) (chains : AdmittedChains)
      (after : Option AdmittedChains) (is_revoked : ℕ → Bool) (now : ℕ)
      → Ruled token s
      → keep_chains gates semaphores api s (some chains) ≡ ok after
      → any is_revoked ((gates.chain token).revocation_ids) ≡ true
      → (record_ : AdmittedChains) × (after ≡ some record_) × (any is_revoked record_.ids ≡ true)
  unfolding keep_chains
  kept_recalled token s chains after is_revoked now ruled kept revoked =
      by_record (record_all s.peer s.ruled chains) refl (rw (ruled.unproven, keep_chains) at kept)
    where
      by_record :
          (r : Result Unrecorded AdmittedChains)
          → record_all s.peer s.ruled chains ≡ r
          → recorded gates semaphores api r ≡ ok after
          → (record_ : AdmittedChains) × (after ≡ some record_)
            × (any is_revoked record_.ids ≡ true)
      by_record (err e) same h = absurd cc
      by_record (ok record_) same h =
          let a : Adds s.ruled now is_revoked chains record_ =
            record_all-Adds s.peer s.ruled chains record_ now is_revoked same in
          let some_id : any is_revoked (all_ids s.ruled) ≡ true = rw (ruled.ruled) (
            any-append is_revoked ((gates.chain token).revocation_ids) (all_ids ruled.rest)
              revoked) in
          let hit : any is_revoked record_.ids ≡ true = a.ids ∙ or_left _ _ some_id in
          (record_, sym (ok-injective h), hit)

  -- A token that is revoked ends the session that it was used on. Under a live cut over a denylist, a
  -- stream that the base gate let in on a token and that is served leaves a record by which, once any id
  -- of the token is revoked, every later sweep ends the session as recalled, whatever streams the session
  -- has admitted on that record since.
  pub served-recalled :
      (now : ℕ) (host : Host gates semaphores api) (peer : SessionPeer) (presented : Presented)
      (service : Text) (chains : AdmittedChains) (slots : Slots gates semaphores) (text : Text)
      (token : gates.Token) (admitted : AdmittedStream gates semaphores)
      (ready : Ready gates semaphores api) (is_revoked is_revoked_key : ℕ → Bool)
      (try_new : ℕ → Option ℕ) (later : ℕ)
      → IsGated gates semaphores host.admission (resolved gates semaphores api host service)
      → gates.wants_capability host.admission.gate ≡ true
      → presented.capability ≡ some text
      → gates.parse text ≡ some token
      → (serve_service gates semaphores api now host peer presented service
          (some chains)
          slots).outcome
        ≡ served admitted ready
      → any is_revoked ((gates.chain token).revocation_ids) ≡ true
      → (record_ : AdmittedChains) × ((serve_service gates semaphores api now host peer presented
            service
            (some chains)
            slots).chains
          ≡ some record_)
        × ((since : List Stream) (after : AdmittedChains)
            → admit_more since record_ ≡ ok after
            → session_cut (denylist is_revoked is_revoked_key) try_new after later ≡ some recalled)
  unfolding serve_service
  served-recalled now host peer presented service chains slots text token admitted ready is_revoked
        is_revoked_key try_new later gated wants gave parses h revoked =
      let name = resolved gates semaphores api host service in
      let ruled = admit gates semaphores now host.admission peer presented name slots in
      let (by_gate, passed) =
        answer_served gates semaphores api host peer name (some chains) ruled.0 ruled.1 h in
      let p =
        dispatch-Passed gates semaphores api host peer name admitted (some chains) ready _ passed in
      let e : gate_ruling gates semaphores host.admission.gate peer presented name
            (gates.verify_key peer.node)
          ≡ ok admitted =
        sym (
          ap (λ r. r.1)
            (admit-gate_ruling gates semaphores now host.admission peer presented name slots gated))
        ∙ by_gate in
      let (record_, left, hit) =
        kept_recalled token admitted chains _ is_revoked later
          (gate_ruling-Ruled host.admission.gate peer presented name (gates.verify_key peer.node)
            text token admitted wants gave parses e)
          p.recorded revoked in
      (
        record_,
        left,
        λ since after more.
            admit_more-recalled since record_ after later is_revoked is_revoked_key try_new more
              hit,
      )
