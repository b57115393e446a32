-- ===== src/Connector/Exchange.antt =====
-- A connector and a host, over the bytes between them.
use tightbeam.Base.{
  ℕ, ◌≡◌, refl, sym, subst, ap, ◌∙◌, true, false, Option, none, some, List, [], ◌++◌, inl, inr, ◌⊎◌,
  ==-self, Option-cases, append-nil,
}
use tightbeam.Base.Bytes.{Text}
use tightbeam.Base.Stream.{fails_as}
use tightbeam.Base.Stream
use tightbeam.Security.{peer_proven}
use tightbeam.Cut.{AdmittedChains}
use tightbeam.Protocol.Frames.{Details, Refusal, not_admitted, bad_request, unavailable}
use tightbeam.Protocol.Request.{Request, ReadError, WireVersion, presents_credential, read}
use tightbeam.Protocol.Request.RoundTrip.{AllFit, AllUtf8, request_round_trip}
use tightbeam.Protocol.Request.Reading.{write_checked_lem}
use tightbeam.Protocol.Response.{Response, accepted}
use tightbeam.Protocol.Response
use tightbeam.Protocol.Response.RoundTrip.{IsKnown, response_round_trip}
use tightbeam.Permits.{Semaphores}
use tightbeam.Gate.{Gates}
use tightbeam.Admit.{SessionPeer, Slots}
use tightbeam.Dispatch.{
  Host, Outcome, dropped, served, ReadOutcome, unreadable, arrived, serve_request,
}
use tightbeam.Dispatch.Refused.{serve_service-refused}
use tightbeam.Connector.{
  Connector, Session, request, Dialed, admitted, fails, turned_away, answered, handshake, open_on,
}

-- What the host's read of the frame gives its dispatch.
abbrev pub heard : Stream.Outcome ReadError Request → ReadOutcome
heard (Stream.Outcome.ok r rest) = arrived r
heard (Stream.Outcome.err e rest) = unreadable e

module _ (api : Details) where
  open api use {Detail}

  -- What a reply means for the dialer.
  abbrev pub verdict : Response Detail → List ℕ → Dialed Detail
  verdict accepted payload = admitted payload
  verdict (Response.refused refusal) payload = fails (turned_away refusal)

  answered-verdict :
      (r : Response Detail) (payload : List ℕ)
      → answered api (Stream.Outcome.ok r payload) ≡ verdict r payload
  answered-verdict accepted payload = refl
  answered-verdict (Response.refused refusal) payload = refl

  handshake_exchange :
      (session : Session) (r : Request) (reply : Response Detail) (payload bytes : List ℕ)
      → (presents_credential r ≡ false) ⊎ (peer_proven session.security ≡ true)
      → AllUtf8 r
      → AllFit r
      → Response.read api (bytes ++ payload) ≡ Stream.Outcome.ok reply payload
      → (sent : List ℕ) × (heard (read sent) ≡ arrived r)
        × (handshake api (session.security) r (bytes ++ payload)
            ≡ record { sent = sent; result = verdict reply payload })
  unfolding handshake
  handshake_exchange session r reply payload bytes may u f answer =
      let (sent, wrote, reads) = request_round_trip r [] [] u f in
      (
        sent,
        ap heard (subst (λ b. read b ≡ Stream.Outcome.ok r []) (append-nil sent) reads),
        elim (write_checked_lem session.security r []) [
          | inl (presents, unproven, e) ↦ absurd (elim may [
            | inl none_presented ↦ cc (presents, none_presented)
            | inr proven ↦ cc (unproven, proven)
          ])
          | inr (why, e) ↦
              rw (e, wrote, handshake)
                (ap (λ d. record { sent = sent; result = d })
                  (rw (answer) (answered-verdict reply payload)))
        ],
      )

  open_on-handshake :
      (connector : Connector) (session : Session) (incoming : List ℕ)
      → session.peer ≡ connector.dial
      → session.opens ≡ true
      → open_on api connector session incoming
        ≡ handshake api (session.security) (request connector) incoming
  unfolding open_on
  open_on-handshake connector session incoming same opens =
      rw (same, ==-self connector.dial, opens, open_on) refl

module _ (gates : Gates) (semaphores : Semaphores) (api : Details) where
  open api use {Detail}

  -- What a host writes for what became of a stream: a stream that is dropped has no answer.
  abbrev pub reply_of : Outcome gates semaphores api → Option (Response Detail)
  reply_of dropped = none
  reply_of (Outcome.refused refusal) = some (Response.refused refusal)
  reply_of (served s ready) = some accepted

  module _ (display : WireVersion → Text) (invalid_name : Text → Text) where
    refusal-IsKnown :
        (now : ℕ) (host : Host gates semaphores api) (peer : SessionPeer) (r : Request)
        (chains : Option AdmittedChains) (slots : Slots gates semaphores) (refusal : Refusal Detail)
        → (serve_request gates semaphores api display invalid_name now host peer
            (arrived r)
            chains
            slots).outcome
          ≡ Outcome.refused refusal
        → IsKnown (Response.refused refusal)
    unfolding serve_request
    refusal-IsKnown now host peer r chains slots refusal h =
        elim (Option-cases (gates.parse_service r.service)) [
          | inl e ↦
              let h' : ◌≡◌ {A = Outcome gates semaphores api}
                  (Outcome.refused (bad_request (api.bounded (invalid_name r.service))))
                  (Outcome.refused refusal) =
                rw (e, serve_request) at h in
              let told : bad_request (api.bounded (invalid_name r.service)) ≡ refusal = cc h' in
              known _ (sym told) tt
          | inr (name, e) ↦
              elim (serve_service-refused gates semaphores api now host peer _ name chains slots
                refusal (rw (e, serve_request) at h)) [
                  | inl uniform ↦ known not_admitted uniform tt
                  | inr (inl (ruling, late)) ↦ known _ late tt
                  | inr (inr (s, ruled, on, (text, failed, told))) ↦
                      known (unavailable (api.bounded text)) told tt
                ]
        ]
      where
        known :
            (x : Refusal Detail)
            → refusal ≡ x
            → IsKnown (Response.refused x)
            → IsKnown (Response.refused refusal)
        known x e k = subst (λ y. IsKnown (Response.refused y)) (sym e) k

    reply-IsKnown :
        (now : ℕ) (host : Host gates semaphores api) (peer : SessionPeer) (r : Request)
        (chains : Option AdmittedChains) (slots : Slots gates semaphores)
        (o : Outcome gates semaphores api) (reply : Response Detail)
        → (serve_request gates semaphores api display invalid_name now host peer
            (arrived r)
            chains
            slots).outcome
          ≡ o
        → reply_of o ≡ some reply
        → IsKnown reply
    reply-IsKnown now host peer r chains slots dropped reply h e = absurd cc
    reply-IsKnown now host peer r chains slots (Outcome.refused refusal) reply h e =
        let e' : Response.refused refusal ≡ reply = cc e in
        subst (IsKnown {D = Detail}) e' (refusal-IsKnown now host peer r chains slots refusal h)
    reply-IsKnown now host peer r chains slots (served s ready) reply h e =
        let e' : ◌≡◌ {A = Response Detail} accepted reply = cc e in
        subst (IsKnown {D = Detail}) e' tt

    -- A dial ends as the host decided. Over a session to the connector's own node that may carry what it
    -- presents, the bytes that the connector sends are heard by the host as the request that it makes;
    -- and whatever the host's ruling on it is, its reply can be written, and is what the connector
    -- reads: a refusal with its class and detail, or a stream with every byte that follows.
    pub open_on-serve_request :
        (connector : Connector) (session : Session) (now : ℕ) (host : Host gates semaphores api)
        (peer : SessionPeer) (chains : Option AdmittedChains) (slots : Slots gates semaphores)
        (reply : Response Detail) (payload : List ℕ)
        → session.peer ≡ connector.dial
        → session.opens ≡ true
        → (presents_credential (request connector) ≡ false) ⊎ (peer_proven session.security ≡ true)
        → AllUtf8 (request connector)
        → AllFit (request connector)
        → reply_of
            (serve_request gates semaphores api display invalid_name now host peer
              (arrived (request connector))
              chains
              slots).outcome
          ≡ some reply
        → (sent : List ℕ) × (bytes : List ℕ) × (heard (read sent) ≡ arrived (request connector))
          × (Response.write api reply [] ≡ Stream.Outcome.ok tt bytes)
          × (open_on api connector session (bytes ++ payload)
              ≡ record { sent = sent; result = verdict api reply payload })
    open_on-serve_request connector session now host peer chains slots reply payload same opens may
          utf8 fit ruled =
        let known =
          reply-IsKnown now host peer (request connector) chains slots
            (serve_request gates semaphores api display invalid_name now host peer
              (arrived (request connector)) chains slots).outcome
            reply refl ruled in
        let (bytes, wrote, reads) = response_round_trip api reply [] payload known in
        let (sent, hears, dials) =
          handshake_exchange api session (request connector) reply payload bytes may utf8 fit
            reads in
        (
          sent,
          bytes,
          hears,
          wrote,
          open_on-handshake api connector session (bytes ++ payload) same opens ∙ dials,
        )
