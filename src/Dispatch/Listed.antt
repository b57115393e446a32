-- ===== src/Dispatch/Listed.antt =====
-- What a stranger reaches against what the node says of its services.
use tightbeam.Base.{
  ℕ, arith, ◌≡◌, refl, ap, subst, ◌∙◌, Bool, true, false, not, ◌||◌, Option, some, List, [], ◌∷◌,
  same_bytes, Bool-cases, inl, inr,
}
use tightbeam.Base.Bytes.{Text}
use tightbeam.Base.Results.{ok}
use tightbeam.Security.{peer_proven}
use tightbeam.Cut.{AdmittedChains}
use tightbeam.Catalog.{opened}
use tightbeam.Router.{Services, Route, Exposer, get, contains, posture, prove}
use tightbeam.Router.Interlocks.{prove_result}
use tightbeam.Router.Listing.{catalog}
use tightbeam.Router.Listing.Postures.{listed, is_served, catalog_lists}
use tightbeam.Protocol.Frames.{Details}
use tightbeam.Permits.{Semaphores}
use tightbeam.Gate.{Gates}
use tightbeam.Admit.{SessionPeer, Presented, AdmittedStream, Slots, admit}
use tightbeam.Dispatch.{Host, Ready, served, serve_service, resolved}
use tightbeam.Dispatch.Passed.{dispatch-Passed, answer_served}
use tightbeam.Dispatch.Faced.{admit-faces}

get-is_served :
    (services : Services) (name : Text) {route : Route}
    → get services name ≡ some route
    → is_served name services ≡ true
get-is_served [] name h = absurd cc
get-is_served (r ∷ rs) name h = elim (Bool-cases (same_bytes r.name name)) [
  | inl here ↦ rw (here) refl
  | inr there ↦ rw (there) (get-is_served rs name (rw (there) at h))
]

posture-opened :
    (node_open : Bool) (public public_unsafe : List Text) (name : Text)
    → node_open || (contains public name || contains public_unsafe name) ≡ true
    → posture node_open public public_unsafe name ≡ opened
unfolding posture
posture-opened node_open public public_unsafe name h = ground arith

module _ (gates : Gates) (semaphores : Semaphores) (api : Details) where
  -- The catalog tells the truth to strangers. On a host whose exposer was constructed, a stream that is
  -- served to a peer whose key the transport does not prove reaches a service that the catalog lists,
  -- and lists as open.
  pub served-listed :
      (now : ℕ) (host : Host gates semaphores api) (peer : SessionPeer) (presented : Presented)
      (service : Text) (chains : Option AdmittedChains) (slots : Slots gates semaphores)
      (node_open : Bool) (public public_unsafe : List Text) (e : Exposer)
      (admitted : AdmittedStream gates semaphores) (ready : Ready gates semaphores api)
      → prove host.admission.routes node_open public public_unsafe ≡ ok e
      → host.admission.public ≡ e.public
      → host.admission.public_unsafe ≡ e.public_unsafe
      → gates.wants_capability host.admission.gate ≡ not e.node_open
      → peer_proven peer.security ≡ false
      → (serve_service gates semaphores api now host peer presented service chains slots).outcome
        ≡ served admitted ready
      → listed
          (resolved gates semaphores api host service)
          (catalog host.admission.routes node_open public public_unsafe)
        ≡ some opened
  unfolding serve_service
  served-listed now host peer presented service chains slots node_open public public_unsafe e
        admitted ready proved safe raw base unproven h =
      let name = resolved gates semaphores api host service in
      let routes = host.admission.routes in
      let ruled = admit gates semaphores now host.admission peer presented name slots in
      let (by_gate, passed) =
        answer_served gates semaphores api host peer name chains ruled.0 ruled.1 h in
      let p = dispatch-Passed gates semaphores api host peer name admitted chains ready _ passed in
      let faces =
        admit-faces gates semaphores now host.admission peer presented name slots admitted
          e.node_open base unproven by_gate in
      let asked : node_open || (contains public name || contains public_unsafe name) ≡ true =
        subst (λ x. x.node_open || (contains x.public name || contains x.public_unsafe name) ≡ true)
          (prove_result routes node_open public public_unsafe e proved) (rw (safe, raw) at faces) in
      let there : is_served name routes ≡ true = get-is_served routes name p.found in
      (catalog_lists routes node_open public public_unsafe name).0
      ∙ rw (there) (ap some (posture-opened node_open public public_unsafe name asked))
