-- ===== src/Dispatch/Blind.antt =====
-- A dialer that the gate refuses cannot tell one host from another.
use tightbeam.Base.{
  ℕ, ◌≡◌, refl, sym, subst, ap, ◌∙◌, false, Option, none, some, Option-cases, inl, inr,
}
use tightbeam.Base.Bytes.{Text}
use tightbeam.Base.Results.{Result, err}
use tightbeam.Cut.{AdmittedChains}
use tightbeam.Router.{get}
use tightbeam.Protocol.Frames.{Details}
use tightbeam.Permits.{Semaphores}
use tightbeam.Gate.{Gates, HostRefusal, wire_refusal, peer_key}
use tightbeam.Admit.{
  SessionPeer, Presented, AdmittedStream, Admission, Slots, is_opened, proven_route, admit_gated,
  admit_key, admit,
}
use tightbeam.Dispatch.{Host, Outcome, refused, answer, serve_service, resolved}

module _ (gates : Gates) (semaphores : Semaphores) where
  -- A name that the family gate rules on: no overlay opens it and no route is proven-only. The host may
  -- serve it or not.
  abbrev pub IsGated : Admission gates semaphores → Text → Type 0
  IsGated admission name =
      (is_opened gates semaphores admission name ≡ false)
      × (proven_route (get admission.routes name) ≡ false)

  -- The ruling of the family gate alone.
  abbrev pub gate_ruling :
      gates.Gate
      → SessionPeer
      → Presented
      → Text
      → Option ℕ
      → Result HostRefusal (AdmittedStream gates semaphores)
  gate_ruling gate peer presented name none = err peer_key
  gate_ruling gate peer presented name (some key) =
      admit_gated gates semaphores gate peer key presented name

  pub admit-gate_ruling :
      (now : ℕ) (admission : Admission gates semaphores) (peer : SessionPeer)
      (presented : Presented) (name : Text) (slots : Slots gates semaphores)
      → IsGated admission name
      → admit gates semaphores now admission peer presented name slots
        ≡ (slots, gate_ruling admission.gate peer presented name (gates.verify_key peer.node))
  unfolding admit admit_key
  admit-gate_ruling now admission peer presented name slots (closed, family) =
      elim (Option-cases (gates.verify_key peer.node)) [
        | inl e ↦ rw (e, admit) refl
        | inr (key, e) ↦ rw (e, admit, admit_key, closed, family) refl
      ]

module _ (gates : Gates) (semaphores : Semaphores) (api : Details) where
  abbrev pub answered :
      ℕ
      → Host gates semaphores api
      → SessionPeer
      → Presented
      → Text
      → Option AdmittedChains
      → Slots gates semaphores
      → Outcome gates semaphores api
  answered now host peer presented service chains slots =
      (serve_service gates semaphores api now host peer presented service chains slots).outcome

  one_answer :
      (now : ℕ) (host : Host gates semaphores api) (peer : SessionPeer) (presented : Presented)
      (service name : Text) (chains : Option AdmittedChains) (slots : Slots gates semaphores)
      (cause : HostRefusal)
      → resolved gates semaphores api host service ≡ name
      → IsGated gates semaphores host.admission name
      → gate_ruling gates semaphores host.admission.gate peer presented name
          (gates.verify_key peer.node)
        ≡ err cause
      → answered now host peer presented service chains slots ≡ refused (wire_refusal api cause)
  unfolding serve_service
  one_answer now host peer presented service name chains slots cause same gated ruled =
      subst
        (λ n.
          (let ruled = admit gates semaphores now host.admission peer presented n slots in
            (answer gates semaphores api host peer n chains ruled.0 ruled.1).outcome)
          ≡ refused (wire_refusal api cause))
        (sym same)
        (ap (λ r. (answer gates semaphores api host peer name chains r.0 r.1).outcome)
          (admit-gate_ruling gates semaphores now host.admission peer presented name slots gated
            ∙ ap (λ r. (slots, r)) ruled))

  -- Two hosts with one gate give a dialer that the gate refuses the same answer for a name that both
  -- leave to the gate, whatever they serve, have disabled, have open, have recorded and have room for.
  -- Nothing is asked but that both resolve the request to that name.
  pub refused-blind :
      (now later : ℕ) (host other : Host gates semaphores api) (peer : SessionPeer)
      (presented : Presented) (service name : Text) (chains chains' : Option AdmittedChains)
      (slots slots' : Slots gates semaphores) (cause : HostRefusal)
      → resolved gates semaphores api host service ≡ name
      → resolved gates semaphores api other service ≡ name
      → IsGated gates semaphores host.admission name
      → IsGated gates semaphores other.admission name
      → host.admission.gate ≡ other.admission.gate
      → gate_ruling gates semaphores host.admission.gate peer presented name
          (gates.verify_key peer.node)
        ≡ err cause
      → answered now host peer presented service chains slots
        ≡ answered later other peer presented service chains' slots'
  refused-blind now later host other peer presented service name chains chains' slots slots' cause
        same same' gated gated' gate ruled =
      one_answer now host peer presented service name chains slots cause same gated ruled
      ∙ sym (
          one_answer later other peer presented service name chains' slots' cause same' gated'
            (rw (gate) at ruled))
