-- ===== src/Tests/Links.antt =====
-- A link that is presented to the node at its root.
use tightbeam.Base.{ℕ, ◌≡◌, ◌≢◌, refl, true, Option, none, some, [], ◌∷◌}
use tightbeam.Base.Bytes.{Text}
use tightbeam.Security.{in_process, announced, peer_proven}
use tightbeam.Protocol.Request.{presents_credential, write_checked}
use tightbeam.Connector.{Link, Session, ServiceSession, request, open_bi}
use tightbeam.Connector.Presenting.{PresentingConnector, from_link, open_service}
use tightbeam.Connector.Presenting.Bound.{badged, open_service-bound, at_root}
use tightbeam.Tests.Frames.{few_details}

abbrev home_link : Link
home_link = record { text = b'c' ∷ []; root = b'r' ∷ [] }

abbrev badge : Text
badge = b'm' ∷ []

-- A root of one byte is the key of a node.
abbrev to_seven : Text → Option ℕ
to_seven (b ∷ []) = some 7
to_seven root = none

abbrev home_dial : PresentingConnector
home_dial = record {
  connector = record {
    dial = 7;
    service = b'a' ∷ [];
    capability = some (b'c' ∷ []);
    membership = none;
  };
}

abbrev home_session : Session
home_session = record { peer = 7; security = record { peer = in_process }; opens = true }

abbrev home_service : ServiceSession
home_service = record {
  session = home_session;
  connector = record home_dial.connector { membership = some badge };
}

home_made : from_link to_seven home_link (b'a' ∷ []) ≡ some home_dial
unfolding from_link
home_made = refl

no_key : from_link to_seven (record { text = []; root = [] }) (b'a' ∷ []) ≡ none
unfolding from_link
no_key = refl

home_opened : open_service (badged (badge ∷ []) home_dial) (some home_session) ≡ some home_service
unfolding open_service badged
home_opened = refl

-- A peer that is only announced is sent nothing.
unproven_unsent :
    (open_bi few_details
      (record {
        session = record home_session { security = record { peer = announced } };
        connector = home_dial.connector;
      })
      []).sent
    ≡ []
unfolding open_bi write_checked presents_credential peer_proven
unproven_unsent = refl

open_service-bound_example :
    ((request home_service.connector).service ≡ b'a' ∷ [])
    × ((request home_service.connector).capability ≡ some (b'c' ∷ []))
    × ((open_bi few_details home_service []).sent ≢ []
        → (◌≡◌ {A = Option ℕ} (some 7) (some 7))
          × (peer_proven (record { peer = in_process }) ≡ true))
open_service-bound_example =
    open_service-bound to_seven few_details (at_root home_link) (b'a' ∷ []) (badge ∷ []) home_dial
      (some home_session) home_service [] home_made home_opened
