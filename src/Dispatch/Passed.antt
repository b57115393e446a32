-- ===== src/Dispatch/Passed.antt =====
-- What a stream that is served has passed, in the order in which it is asked.
use tightbeam.Base.{◌≡◌, ap, true, not, ◌&&◌, Option, none, some}
use tightbeam.Base.Bytes.{Text}
use tightbeam.Base.Results.{Result, ok, err, step_ok, ok-injective, some_or}
use tightbeam.Cut.{AdmittedChains}
use tightbeam.Router.{Route, get, is_member}
use tightbeam.Protocol.Frames.{Details, Refusal, not_admitted}
use tightbeam.Permits.{Semaphores}
use tightbeam.Gate.{Gates, HostRefusal}
use tightbeam.Admit.{SessionPeer, AdmittedStream, Slots}
use tightbeam.Admit.Branches.{pass_unless}
use tightbeam.Dispatch.{Host, Ready, served, make_ready, keep_chains, dispatch, finish, answer}

pub some_or-ok : {E A : Type 0} (e : E) (o : Option A) {a : A} → some_or e o ≡ ok a → o ≡ some a
some_or-ok e none h = absurd cc
some_or-ok e (some x) h = ap some (ok-injective h)

module _ (gates : Gates) (semaphores : Semaphores) (api : Details) where
  pub record Passed (host : Host gates semaphores api) (peer : SessionPeer) (service : Text)
      (admitted : AdmittedStream gates semaphores) (chains : Option AdmittedChains)
      (ready : Ready gates semaphores api) (after : Option AdmittedChains) : Type 0 where
    pub enabled : host.enabled service ≡ true
    pub route : Route
    pub found : get host.admission.routes service ≡ some route
    pub floor : not (is_member route.access && not (gates.is_member admitted.witness)) ≡ true
    pub made :
        make_ready gates semaphores api host peer.node service admitted.witness route.target
        ≡ ok ready
    pub recorded : keep_chains gates semaphores api admitted chains ≡ ok after

  pub dispatch-Passed :
      (host : Host gates semaphores api) (peer : SessionPeer) (service : Text)
      (admitted : AdmittedStream gates semaphores) (chains : Option AdmittedChains)
      (ready : Ready gates semaphores api) (after : Option AdmittedChains)
      → dispatch gates semaphores api host peer service admitted chains ≡ ok (ready, after)
      → Passed host peer service admitted chains ready after
  unfolding dispatch
  dispatch-Passed host peer service admitted chains ready after h =
      pass_unless (host.enabled service) not_admitted _ h (λ e1 h1.
        step_ok (some_or not_admitted (get host.admission.routes service)) _ h1 (λ route e2 h2.
          pass_unless (not (is_member route.access && not (gates.is_member admitted.witness)))
            not_admitted _ h2
            (λ e3 h3.
              step_ok
                (make_ready gates semaphores api host peer.node service admitted.witness
                  route.target)
                _ h3
                (λ made e4 h4.
                  step_ok (keep_chains gates semaphores api admitted chains) _ h4 (λ kept e5 h5.
                    record {
                      enabled = e1;
                      route = route;
                      found = some_or-ok not_admitted (get host.admission.routes service) e2;
                      floor = e3;
                      made = cc (e4, ok-injective h5);
                      recorded = cc (e5, ok-injective h5);
                    })))))

  module _ (host : Host gates semaphores api) (peer : SessionPeer) (service : Text)
      (chains : Option AdmittedChains) (slots : Slots gates semaphores) where
    finish_served :
        (admitted : AdmittedStream gates semaphores)
        (r : Result (Refusal (api.Detail)) (Ready gates semaphores api × Option AdmittedChains))
        {a : AdmittedStream gates semaphores} {ready : Ready gates semaphores api}
        → (finish gates semaphores api slots chains admitted r).outcome ≡ served a ready
        → (admitted ≡ a)
          × (r ≡ ok (ready, (finish gates semaphores api slots chains admitted r).chains))
    finish_served admitted (err refusal) h = absurd cc
    finish_served admitted (ok (ready, after)) h = (cc, cc)

    -- A served stream was admitted and dispatched.
    pub answer_served :
        (r : Result HostRefusal (AdmittedStream gates semaphores))
        {a : AdmittedStream gates semaphores} {ready : Ready gates semaphores api}
        → (answer gates semaphores api host peer service chains slots r).outcome ≡ served a ready
        → (r ≡ ok a)
          × (dispatch gates semaphores api host peer service a chains
              ≡ ok (ready, (answer gates semaphores api host peer service chains slots r).chains))
    answer_served (err cause) h = absurd cc
    answer_served (ok admitted) {a} {ready} h =
        let (same, done) =
          finish_served admitted (dispatch gates semaphores api host peer service admitted chains)
            h in
        (cc, cc)
