-- ===== src/Dispatch/Refused.antt =====
-- What refuses a request for a service that has a name.
use tightbeam.Base.{
  ℕ, ◌≡◌, refl, sym, ap, ◌⊎◌, inl, inr, Option-cases, Bool, true, false, not, ◌&&◌, Option, none,
  some,
}
use tightbeam.Base.Bytes.{Text}
use tightbeam.Base.Results.{Result, ok, err, ◌>>◌, step_err, map_err, some_or}
use tightbeam.Cut.{AdmittedChains, record_all}
use tightbeam.Router.{Target, handler, raw_stream, get, is_member}
use tightbeam.Protocol.Frames.{Details, Refusal, not_admitted, unavailable}
use tightbeam.Permits.{Semaphores}
use tightbeam.Contract.{mint}
use tightbeam.Contract.Delegation.{mint_err}
use tightbeam.Gate.{
  Gates, HostRefusal, wire_refusal, undecided, undecided_detail, missing, not_granted, revoked,
  malformed_capability, unknown_key, peer_key, proven_at_capacity, unrevocable, peer_not_proven,
  public_at_capacity,
}
use tightbeam.Admit.{SessionPeer, Presented, AdmittedStream, Slots, admit, refuse_unless}
use tightbeam.Dispatch.{
  Host, Ready, refused, make_ready, keep_chains, dispatch, finish, answer, serve_service, resolved,
  open_source, recorded,
}

-- Inversion of a check that refused.
unless_err :
    {E A P : Type 0} (flag : Bool) (refusal : E) (rest : Result E A) {e : E}
    → (refuse_unless flag refusal >> rest) ≡ err e
    → (refusal ≡ e → P)
    → (flag ≡ true → rest ≡ err e → P)
    → P
unless_err true refusal rest h first later = later refl h
unless_err false refusal rest h first later = first (cc h)

some_or-err : {E A : Type 0} (e : E) (o : Option A) {e' : E} → some_or e o ≡ err e' → e ≡ e'
some_or-err e none h = cc h
some_or-err e (some a) h = absurd cc

map_err-err :
    {E F A : Type 0} (f : E → F) (r : Result E A) {e : F}
    → map_err f r ≡ err e
    → (x : E) × (r ≡ err x) × (e ≡ f x)
map_err-err f (ok a) h = absurd cc
map_err-err f (err x) h = (x, refl, cc h)

module _ (gates : Gates) (semaphores : Semaphores) (api : Details) where
  -- A source that did not open.
  abbrev pub Unopened : Host gates semaphores api → ℕ → Text → Refusal (api.Detail) → Type 0
  Unopened host node service refusal =
      (text : Text) × (open_source gates semaphores api host node service ≡ err text)
      × (refusal ≡ unavailable (api.bounded text))

  make_ready_err :
      (host : Host gates semaphores api) (node : ℕ) (service : Text) (witness : gates.Admitted)
      (target : Target) (refusal : Refusal (api.Detail))
      → make_ready gates semaphores api host node service witness target ≡ err refusal
      → (refusal ≡ not_admitted) ⊎ Unopened host node service refusal
  unfolding make_ready
  make_ready_err host node service witness (raw_stream openable) refusal h =
      step_err
        (map_err (λ text. unavailable (api.bounded text))
          (open_source gates semaphores api host node service))
        _ h
        (λ e. inr (
          map_err-err (λ text. unavailable (api.bounded text))
            (open_source gates semaphores api host node service) e))
        (λ source e h'. absurd (cc h'))
  make_ready_err host node service witness (handler exposure) refusal h =
      step_err (mint gates api.Detail exposure witness) _ h
        (λ e. inl (mint_err gates api.Detail exposure witness refusal e))
        (λ proof e h'. absurd (cc h'))

  recorded_err :
      {E : Type 0} (r : Result E AdmittedChains) (refusal : Refusal (api.Detail))
      → recorded gates semaphores api r ≡ err refusal
      → refusal ≡ not_admitted
  recorded_err (err e) refusal h = cc h
  recorded_err (ok chains) refusal h = absurd cc

  keep_chains_err :
      (admitted : AdmittedStream gates semaphores) (chains : Option AdmittedChains)
      (refusal : Refusal (api.Detail))
      → keep_chains gates semaphores api admitted chains ≡ err refusal
      → refusal ≡ not_admitted
  unfolding keep_chains
  keep_chains_err admitted none refusal h = absurd (cc h)
  keep_chains_err admitted (some chains) refusal h = elim (Option-cases admitted.proven) [
    | inl e ↦
        recorded_err (record_all admitted.peer admitted.ruled chains) refusal
          (rw (e, keep_chains) at h)
    | inr (proven, e) ↦ absurd (cc (rw (e, keep_chains) at h))
  ]

  dispatch_err :
      (host : Host gates semaphores api) (peer : SessionPeer) (service : Text)
      (admitted : AdmittedStream gates semaphores) (chains : Option AdmittedChains)
      (refusal : Refusal (api.Detail))
      → dispatch gates semaphores api host peer service admitted chains ≡ err refusal
      → (refusal ≡ not_admitted)
        ⊎ ((host.enabled service ≡ true) × Unopened host peer.node service refusal)
  unfolding dispatch
  dispatch_err host peer service admitted chains refusal h =
      unless_err (host.enabled service) not_admitted _ h (λ e. inl (sym e))
        (λ on h1.
          step_err (some_or not_admitted (get host.admission.routes service)) _ h1
            (λ e. inl (sym (some_or-err not_admitted (get host.admission.routes service) e)))
            (λ route found h2.
              unless_err (not (is_member route.access && not (gates.is_member admitted.witness)))
                not_admitted _ h2 (λ e. inl (sym e))
                (λ floor h3.
                  step_err
                    (make_ready gates semaphores api host peer.node service admitted.witness
                      route.target)
                    _ h3
                    (λ e.
                      elim (make_ready_err host peer.node service admitted.witness route.target
                        refusal e) [
                          | inl uniform ↦ inl uniform
                          | inr unopened ↦ inr (on, unopened)
                        ])
                    (λ ready made h4.
                      step_err (keep_chains gates semaphores api admitted chains) _ h4
                        (λ e. inl (keep_chains_err admitted chains refusal e))
                        (λ after recorded h5. absurd (cc h5))))))

  wire_refusal_cases :
      (cause : HostRefusal)
      → (wire_refusal api cause ≡ not_admitted)
        ⊎ ((cause ≡ HostRefusal.gate undecided)
            × (wire_refusal api cause ≡ unavailable (api.bounded undecided_detail)))
  unfolding wire_refusal
  wire_refusal_cases malformed_capability = inl refl
  wire_refusal_cases unknown_key = inl refl
  wire_refusal_cases peer_key = inl refl
  wire_refusal_cases proven_at_capacity = inl refl
  wire_refusal_cases unrevocable = inl refl
  wire_refusal_cases (peer_not_proven declared) = inl refl
  wire_refusal_cases (public_at_capacity cap) = inl refl
  wire_refusal_cases (HostRefusal.gate missing) = inl refl
  wire_refusal_cases (HostRefusal.gate not_granted) = inl refl
  wire_refusal_cases (HostRefusal.gate revoked) = inl refl
  wire_refusal_cases (HostRefusal.gate undecided) = inr (refl, refl)

  pub finish_refused :
      (slots : Slots gates semaphores) (chains : Option AdmittedChains)
      (admitted : AdmittedStream gates semaphores)
      (r : Result (Refusal (api.Detail)) (Ready gates semaphores api × Option AdmittedChains))
      {refusal : Refusal (api.Detail)}
      → (finish gates semaphores api slots chains admitted r).outcome ≡ refused refusal
      → r ≡ err refusal
  finish_refused slots chains admitted (err e) h = cc h
  finish_refused slots chains admitted (ok (ready, after)) h = absurd cc

  -- What refuses a request for a service that has a name. The stream is not admitted, without a word
  -- more; or the gate ran out of time; or the stream was admitted, its service is enabled, and the source
  -- of its raw stream did not open.
  abbrev pub ServiceRefused :
      ℕ
      → Host gates semaphores api
      → SessionPeer
      → Presented
      → Text
      → Option AdmittedChains
      → Slots gates semaphores
      → Refusal (api.Detail)
      → Type 0
  ServiceRefused now host peer presented service chains slots refusal =
      (refusal ≡ not_admitted)
      ⊎ ((((admit gates semaphores now host.admission peer presented
                (resolved gates semaphores api host service) slots).1
              ≡ err (HostRefusal.gate undecided))
            × (refusal ≡ unavailable (api.bounded undecided_detail)))
          ⊎ ((admitted : AdmittedStream gates semaphores) × ((admit gates semaphores now
                  host.admission peer presented (resolved gates semaphores api host service)
                  slots).1
                ≡ ok admitted)
              × (host.enabled (resolved gates semaphores api host service) ≡ true)
              × Unopened host peer.node (resolved gates semaphores api host service) refusal))

  module _ (now : ℕ) (host : Host gates semaphores api) (peer : SessionPeer) (presented : Presented)
      (service : Text) (chains : Option AdmittedChains) (slots : Slots gates semaphores) where
    pub serve_service-refused :
        (refusal : Refusal (api.Detail))
        → (serve_service gates semaphores api now host peer presented service chains slots).outcome
          ≡ refused refusal
        → ServiceRefused now host peer presented service chains slots refusal
    unfolding serve_service
    serve_service-refused refusal h =
        by_ruling (admit gates semaphores now host.admission peer presented name slots).1 h
      where
        name : Text
        name = resolved gates semaphores api host service

        by_ruling :
            (r : Result HostRefusal (AdmittedStream gates semaphores))
            → (answer gates semaphores api host peer name chains
                (admit gates semaphores now host.admission peer presented name slots).0
                r).outcome
              ≡ refused refusal
            → (refusal ≡ not_admitted)
              ⊎ (((r ≡ err (HostRefusal.gate undecided))
                    × (refusal ≡ unavailable (api.bounded undecided_detail)))
                  ⊎ ((admitted : AdmittedStream gates semaphores) × (r ≡ ok admitted)
                      × (host.enabled name ≡ true)
                      × Unopened host peer.node name refusal))
        by_ruling (err cause) h = elim (wire_refusal_cases cause) [
          | inl uniform ↦ inl (cc (uniform, h))
          | inr (late, detail) ↦ inr (inl (ap err late, cc (detail, h)))
        ]
        by_ruling (ok admitted) h =
            elim (dispatch_err host peer name admitted chains refusal
              (finish_refused _ chains admitted _ h)) [
                | inl uniform ↦ inl uniform
                | inr (on, unopened) ↦ inr (inr (admitted, refl, on, unopened))
              ]
