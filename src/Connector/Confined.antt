-- ===== src/Connector/Confined.antt =====
-- Where a credential may go.
use tightbeam.Base.{ℕ, ◌≡◌, ◌≢◌, refl, true, inl, inr, List, [], ◌==◌, ==→eq, Bool-cases}
use tightbeam.Security.{peer_proven}
use tightbeam.Protocol.Frames.{Details}
use tightbeam.Protocol.Request.{Request, presents_credential}
use tightbeam.Protocol.Request.Reading.{write_checked_lem}
use tightbeam.Connector.{Connector, Session, request, handshake, open_on}

module _ (api : Details) where
  handshake_proven :
      (session : Session) (r : Request) (incoming : List ℕ)
      → presents_credential r ≡ true
      → (handshake api (session.security) r incoming).sent ≢ []
      → peer_proven session.security ≡ true
  unfolding handshake
  handshake_proven session r incoming presents sent =
      elim (write_checked_lem session.security r []) [
        | inl (c, unproven, e) ↦ absurd (sent (rw (e, handshake) refl))
        | inr (inl none_presented, e) ↦ absurd (cc (presents, none_presented))
        | inr (inr proven, e) ↦ proven
      ]

  -- Not a byte of a request that carries a credential leaves a connector, unless the session reaches
  -- the node that the connector was made for and its transport proves that.
  pub open_on-confined :
      (connector : Connector) (session : Session) (incoming : List ℕ)
      → presents_credential (request connector) ≡ true
      → (open_on api connector session incoming).sent ≢ []
      → (session.peer ≡ connector.dial) × (peer_proven session.security ≡ true)
  unfolding open_on
  open_on-confined connector session incoming presents sent =
      elim (Bool-cases (session.peer == connector.dial)) [
        | inr other ↦ absurd (sent (rw (other, open_on) refl))
        | inl same ↦ elim (Bool-cases session.opens) [
          | inr shut ↦ absurd (sent (rw (same, shut, open_on) refl))
          | inl open_it ↦ (
            ==→eq session.peer connector.dial same,
            handshake_proven session (request connector) incoming presents
                (rw (same, open_it, open_on) at sent),
          )
        ]
      ]
