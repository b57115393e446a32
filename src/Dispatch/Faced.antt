-- ===== src/Dispatch/Faced.antt =====
-- Which routes a peer reaches whose key the transport does not prove.
use tightbeam.Base.{
  ℕ, ◌≡◌, refl, Bool, true, false, not, ◌||◌, Option, some, List, Bool-cases, inl, inr,
}
use tightbeam.Base.Bytes.{Text}
use tightbeam.Base.Results.{ok}
use tightbeam.Security.{peer_proven}
use tightbeam.Cut.{AdmittedChains}
use tightbeam.Router.{Exposer, Route, get, contains, prove}
use tightbeam.Router.Interlocks.{may_open, prove-may_open}
use tightbeam.Protocol.Frames.{Details}
use tightbeam.Permits.{Semaphores}
use tightbeam.Gate.{Gates}
use tightbeam.Admit.{SessionPeer, Presented, AdmittedStream, Admission, Slots, is_opened, admit}
use tightbeam.Admit.Branches.{admit_cases, admit_known-proven, admit_gated-proven}
use tightbeam.Dispatch.{Host, Ready, served, serve_service, resolved}
use tightbeam.Dispatch.Passed.{dispatch-Passed, answer_served}

or_intro : (a b : Bool) → b ≡ true → a || b ≡ true
or_intro true b h = refl
or_intro false b h = h

opened_side : (a b : Bool) → (a ≡ false → b ≡ true) → b || a ≡ true
opened_side a true h = refl
opened_side true false h = refl
opened_side false false h = h refl

module _ (gates : Gates) (semaphores : Semaphores) where
  -- The gate is open, or an overlay names the service.
  pub admit-faces :
      (now : ℕ) (admission : Admission gates semaphores) (peer : SessionPeer)
      (presented : Presented) (service : Text) (slots : Slots gates semaphores)
      (s : AdmittedStream gates semaphores) (node_open : Bool)
      → gates.wants_capability admission.gate ≡ not node_open
      → peer_proven peer.security ≡ false
      → (admit gates semaphores now admission peer presented service slots).1 ≡ ok s
      → node_open || is_opened gates semaphores admission service ≡ true
  admit-faces now admission peer presented service slots s node_open base unproven =
      admit_cases gates semaphores
        (λ r. r.1 ≡ ok s → node_open || is_opened gates semaphores admission service ≡ true) now
        admission peer presented service slots (λ h. absurd cc)
        (λ key hit h. or_intro node_open _ hit)
        (λ key miss only h.
          absurd
            (cc (admit_known-proven gates semaphores now admission peer key service slots s h)))
        (λ key e miss family h. opened_side _ node_open (λ miss'. elim (Bool-cases node_open) [
          | inl yes_so ↦ yes_so
          | inr not_so ↦ absurd (
              cc (
                admit_gated-proven gates semaphores admission peer key presented service s h
                  (rw (not_so) at base)))
        ]))

module _ (gates : Gates) (semaphores : Semaphores) (api : Details) where
  -- On a host whose exposer was constructed, a stream that is served to a peer whose key the transport
  -- does not prove reaches a route that may face anyone: a handler whose author calls it safe to open,
  -- with no floor, or a raw stream that was opened by its own name, not marked for members.
  pub served-may_open :
      (now : ℕ) (host : Host gates semaphores api) (peer : SessionPeer) (presented : Presented)
      (service : Text) (chains : Option AdmittedChains) (slots : Slots gates semaphores)
      (node_open : Bool) (public public_unsafe : List Text) (e : Exposer)
      (admitted : AdmittedStream gates semaphores) (ready : Ready gates semaphores api)
      → prove host.admission.routes node_open public public_unsafe ≡ ok e
      → host.admission.public ≡ e.public
      → host.admission.public_unsafe ≡ e.public_unsafe
      → gates.wants_capability host.admission.gate ≡ not e.node_open
      → peer_proven peer.security ≡ false
      → (serve_service gates semaphores api now host peer presented service chains slots).outcome
        ≡ served admitted ready
      → (route : Route) × (get host.admission.routes (resolved gates semaphores api host service)
          ≡ some route)
        × (may_open
              (contains e.public_unsafe (resolved gates semaphores api host service))
              route.target
              route.access
            ≡ true)
  unfolding serve_service
  served-may_open now host peer presented service chains slots node_open public public_unsafe e
        admitted ready proved safe raw base unproven h =
      let name = resolved gates semaphores api host service in
      let ruled = admit gates semaphores now host.admission peer presented name slots in
      let (by_gate, passed) =
        answer_served gates semaphores api host peer name chains ruled.0 ruled.1 h in
      let p = dispatch-Passed gates semaphores api host peer name admitted chains ready _ passed in
      let faces =
        admit-faces gates semaphores now host.admission peer presented name slots admitted
          e.node_open base unproven by_gate in
      (
        p.route,
        p.found,
        prove-may_open host.admission.routes node_open public public_unsafe e name p.route proved
            p.found (rw (safe, raw) at faces),
      )
