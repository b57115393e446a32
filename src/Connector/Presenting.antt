-- ===== src/Connector/Presenting.antt =====
-- The `PresentingConnector` of src/tunnel/connector.rs. Its bound on the transport's type is not modelled:
-- a session of any security is given to it.
pub mod Bound
use tightbeam.Base.{ℕ, Option, none, some, List, [], ◌∷◌}
use tightbeam.Base.Bytes.{Text}
use tightbeam.Connector
use tightbeam.Connector.{Connector, Link, Session, ServiceSession}

pub record PresentingConnector : Type 0 where
  pub connector : Connector

unfoldable pub to_node : ℕ → Text → Link → PresentingConnector
unfolding Connector.to_node
to_node dial service present = record {
  connector = Connector.to_node dial service (some present.text);
}

abbrev pub vouched : Option Connector → Option PresentingConnector
vouched none = none
vouched (some c) = some (record { connector = c })

unfoldable pub from_link : (Text → Option ℕ) → Link → Text → Option PresentingConnector
unfolding Connector.from_link
from_link node_id link service = vouched (Connector.from_link node_id link service)

unfoldable pub with_membership : Text → PresentingConnector → PresentingConnector
unfolding Connector.with_membership
with_membership badge p = record { connector = Connector.with_membership badge p.connector }

unfoldable pub open_service : PresentingConnector → Option Session → Option ServiceSession
unfolding Connector.open_service
open_service p reached = Connector.open_service p.connector reached
