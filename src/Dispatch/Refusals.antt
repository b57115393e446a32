-- ===== src/Dispatch/Refusals.antt =====
-- What the answer to a refused stream tells its dialer.
use tightbeam.Base.{ℕ, ◌≡◌, refl, ◌⊎◌, inl, inr, Option-cases, Option, none, some}
use tightbeam.Base.Bytes.{Text}
use tightbeam.Cut.{AdmittedChains}
use tightbeam.Protocol.Frames.{Details, Refusal, bad_request}
use tightbeam.Protocol.Request.{Request, WireVersion, ReadError, foreign, mismatch}
use tightbeam.Protocol.Request
use tightbeam.Permits.{Semaphores}
use tightbeam.Gate.{Gates}
use tightbeam.Admit.{SessionPeer, Slots}
use tightbeam.Dispatch.{
  Host, refused, serve_request, refused_read, ReadOutcome, elapsed, unreadable, arrived,
}
use tightbeam.Dispatch.Refused.{ServiceRefused, serve_service-refused}

module _ (gates : Gates) (semaphores : Semaphores) (api : Details) where
  module _ (display : WireVersion → Text) (invalid_name : Text → Text) where
    -- What refuses a request before any service is looked up: its preamble is of another version, or the
    -- name of its service is not one. The detail is made of what the dialer sent and nothing else.
    abbrev pub ReadRefused : ReadOutcome → Refusal (api.Detail) → Type 0
    ReadRefused read refusal =
        ((peer : WireVersion) × (read ≡ unreadable (mismatch peer))
          × (refusal ≡ bad_request (api.bounded (display peer))))
        ⊎ ((request : Request) × (read ≡ arrived request)
            × (gates.parse_service request.service ≡ none)
            × (refusal ≡ bad_request (api.bounded (invalid_name request.service))))

    unreadable-refused :
        (e : ReadError) (refusal : Refusal (api.Detail))
        → refused_read gates semaphores api display invalid_name (Request.refusal api display e)
          ≡ refused refusal
        → ReadRefused (unreadable e) refusal
    unfolding Request.refusal
    unreadable-refused foreign refusal h = absurd cc
    unreadable-refused (mismatch peer) refusal h = inl (peer, refl, cc h)
    unreadable-refused (ReadError.io e) refusal h = absurd cc

    -- A refusal says that the stream is not admitted, without a word more, except in four cases. The
    -- request is of another version, or names no service: the detail is made of what the dialer sent. The
    -- gate ran out of time: the detail is the same for every dialer. Or the stream was admitted, its
    -- service is enabled, and the source of its raw stream did not open: the detail says why.
    pub refused-uniform :
        (now : ℕ) (host : Host gates semaphores api) (peer : SessionPeer) (read : ReadOutcome)
        (chains : Option AdmittedChains) (slots : Slots gates semaphores)
        (refusal : Refusal (api.Detail))
        → (serve_request gates semaphores api display invalid_name now host peer read chains
            slots).outcome
          ≡ refused refusal
        → ReadRefused read refusal
          ⊎ ((request : Request) × (service : Text) × (read ≡ arrived request)
              × (gates.parse_service request.service ≡ some service)
              × ServiceRefused gates semaphores api now host peer
                  (record { capability = request.capability; membership = request.membership })
                  service
                  chains
                  slots
                  refusal)
    unfolding serve_request
    refused-uniform now host peer elapsed chains slots refusal h = absurd cc
    refused-uniform now host peer (unreadable e) chains slots refusal h =
        inl (unreadable-refused e refusal h)
    refused-uniform now host peer (arrived request) chains slots refusal h =
        elim (Option-cases (gates.parse_service request.service)) [
          | inl none_so ↦ inl (inr (request, refl, none_so, cc (rw (none_so, serve_request) at h)))
          | inr (service, named) ↦ inr (
            request,
            service,
            refl,
            named,
            serve_service-refused gates semaphores api now host peer
                (record { capability = request.capability; membership = request.membership })
                service chains slots refusal (rw (named, serve_request) at h),
          )
        ]
