-- ===== src/Connector/Presenting/Bound.antt =====
-- What a presenting connector is bound to.
use tightbeam.Base.{ℕ, ◌≡◌, ◌≢◌, refl, sym, ap, ◌∙◌, subst, true, Option, none, some, List, [], ◌∷◌}
use tightbeam.Base.Bytes.{Text}
use tightbeam.Security.{peer_proven}
use tightbeam.Protocol.Frames.{Details}
use tightbeam.Protocol.Request.{presents_credential}
use tightbeam.Connector
use tightbeam.Connector.{Connector, Link, Session, ServiceSession, linked, request, open_bi}
use tightbeam.Connector.Confined.{open_on-confined}
use tightbeam.Connector.Presenting.{
  PresentingConnector, to_node, from_link, vouched, with_membership, open_service,
}

-- How a presenting connector starts: at a node, with a link to present, or at the root of a link.
pub data Start : Type 0 where
  at_node : (dial : ℕ) (present : Link) → Start
  at_root : (link : Link) → Start

abbrev pub link_of : Start → Link
link_of (at_node dial present) = present
link_of (at_root link) = link

unfoldable pub badged : List Text → PresentingConnector → PresentingConnector
unfolding with_membership
badged [] p = p
badged (b ∷ bs) p = badged bs (with_membership b p)

record Same (p q : PresentingConnector) : Type 0 where
  dial : q.connector.dial ≡ p.connector.dial
  service : q.connector.service ≡ p.connector.service
  capability : q.connector.capability ≡ p.connector.capability

badged-Same : (bs : List Text) (p : PresentingConnector) → Same p (badged bs p)
unfolding badged
badged-Same [] p = record { dial = refl; service = refl; capability = refl }
badged-Same (b ∷ bs) p =
    let k = badged-Same bs (with_membership b p) in
    record { dial = k.dial; service = k.service; capability = k.capability }

abbrev first_of : {A : Type 0} → A → Option A → A
first_of p none = p
first_of p (some q) = q

-- A session of a connector that presents something.
session_bound :
    (api : Details) (c : Connector) (text : Text) (session : Session) (incoming : List ℕ)
    → c.capability ≡ some text
    → (open_bi api (record { session = session; connector = c }) incoming).sent ≢ []
    → (session.peer ≡ c.dial) × (peer_proven session.security ≡ true)
unfolding open_bi request presents_credential
session_bound api c text session incoming presents =
    open_on-confined api c session incoming (rw (presents) refl)

module _ (node_id : Text → Option ℕ) where
  abbrev pub node_of : Start → Option ℕ
  node_of (at_node dial present) = some dial
  node_of (at_root link) = node_id link.root

  abbrev pub begun : Start → Text → Option PresentingConnector
  begun (at_node dial present) service = some (to_node dial service present)
  begun (at_root link) service = from_link node_id link service

  record Begun (start : Start) (service : Text) (p : PresentingConnector) : Type 0 where
    node : node_of start ≡ some p.connector.dial
    asks : p.connector.service ≡ service
    presents : p.connector.capability ≡ some (link_of start).text

  linked_lem :
      (link : Link) (service : Text) (o : Option ℕ) (p : PresentingConnector)
      → vouched (linked link service o) ≡ some p
      → node_id link.root ≡ o
      → Begun (at_root link) service p
  unfolding to_node Connector.to_node
  linked_lem link service none p h is = absurd cc
  linked_lem link service (some dial) p h is =
      subst (Begun (at_root link) service) (ap (first_of p) h)
        (record { node = is; asks = refl; presents = refl })

  begun_lem :
      (start : Start) (service : Text) (p : PresentingConnector)
      → begun start service ≡ some p
      → Begun start service p
  unfolding to_node from_link
  begun_lem (at_node dial present) service p h =
      subst (Begun (at_node dial present) service) (ap (first_of p) h)
        (record { node = refl; asks = refl; presents = refl })
  begun_lem (at_root link) service p h = linked_lem link service (node_id link.root) p h refl

  -- A credential goes home. A presenting connector, however it was made and whatever badges were added,
  -- presents its link on every stream of the session that it opened, for its service; and not a byte of
  -- such a stream is sent unless the session reaches the node that the connector was made for, by the
  -- link's root or by name, over a transport that proves it.
  pub open_service-bound :
      (api : Details) (start : Start) (service : Text) (badges : List Text)
      (p : PresentingConnector) (reached : Option Session) (s : ServiceSession) (incoming : List ℕ)
      → begun start service ≡ some p
      → open_service (badged badges p) reached ≡ some s
      → ((request s.connector).service ≡ service)
        × ((request s.connector).capability ≡ some (link_of start).text)
        × ((open_bi api s incoming).sent ≢ []
            → (node_of start ≡ some s.session.peer) × (peer_proven s.session.security ≡ true))
  unfolding open_service Connector.open_service request
  open_service-bound api start service badges p none s incoming h is = absurd cc
  open_service-bound api start service badges p (some session) s incoming h is =
      let c = (badged badges p).connector in
      let k = badged-Same badges p in
      let b = begun_lem start service p h in
      let opened : ServiceSession = record { session = session; connector = c } in
      subst
        (λ s.
          ((request s.connector).service ≡ service)
          × ((request s.connector).capability ≡ some (link_of start).text)
          × ((open_bi api s incoming).sent ≢ []
              → (node_of start ≡ some s.session.peer) × (peer_proven s.session.security ≡ true)))
        (ap (first_of opened) is)
        (
          k.service ∙ b.asks,
          k.capability ∙ b.presents,
          λ sent.
              let (home, proven) =
                session_bound api c (link_of start).text session incoming
                  (k.capability ∙ b.presents) sent in
              (b.node ∙ ap some (sym (home ∙ k.dial)), proven),
        )
