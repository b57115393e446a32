-- ===== src/Connector.antt =====
-- src/tunnel/connector.rs: what a connector asks for and presents, and the handshake of one stream. The
-- session, its peer and its security are the transport's; `incoming` is what the far end sends on the
-- stream. A link is its text and the root that it names, and a node id a number.
pub mod Confined
pub mod Exchange
pub mod Presenting
use tightbeam.Base.{ℕ, Bool, true, false, Option, none, some, List, [], ◌∷◌, ◌==◌, if◌then◌else◌}
use tightbeam.Base.Bytes.{Text}
use tightbeam.Base.Stream.{Outcome, IoError}
use tightbeam.Security.{Security}
use tightbeam.Protocol.Frames.{Details, Refusal}
use tightbeam.Protocol.Request.{Request, WriteError, write_checked}
use tightbeam.Protocol.Response.{Response, accepted, refused}
use tightbeam.Protocol.Response

pub record Connector : Type 0 where
  pub dial : ℕ
  pub service : Text
  pub capability : Option Text
  pub membership : Option Text

-- `Connector::{to_node, with_membership}`
unfoldable pub to_node : ℕ → Text → Option Text → Connector
to_node dial service present = record {
  dial = dial;
  service = service;
  capability = present;
  membership = none;
}

pub record Link : Type 0 where
  pub text : Text
  pub root : Text

-- Whether a root is the key of a node is the transport library's, as `node_id`.
abbrev pub linked : Link → Text → Option ℕ → Option Connector
linked link service none = none
linked link service (some dial) = some (to_node dial service (some link.text))

unfoldable pub from_link : (Text → Option ℕ) → Link → Text → Option Connector
unfolding to_node
from_link node_id link service = linked link service (node_id link.root)

unfoldable pub with_membership : Text → Connector → Connector
with_membership badge connector = record connector { membership = some badge }

unfoldable pub request : Connector → Request
request c = record { service = c.service; capability = c.capability; membership = c.membership }

pub record Session : Type 0 where
  pub peer : ℕ
  pub security : Security
  -- Whether `open_bi` gives a stream.
  pub opens : Bool

pub data DialError (D : Type 0) : Type 0 where
  wrong_peer : (dial reached : ℕ) → DialError D
  no_stream : DialError D
  unwritten : WriteError → DialError D
  unread : IoError → DialError D
  turned_away : Refusal D → DialError D

-- An admitted stream is what its host sends after the reply.
pub data Dialed (D : Type 0) : Type 0 where
  admitted : (payload : List ℕ) → Dialed D
  fails : DialError D → Dialed D

module _ (api : Details) where
  open api use {Detail}

  pub record Dial : Type 0 where
    pub sent : List ℕ
    pub result : Dialed Detail

  abbrev pub answered : Outcome IoError (Response Detail) → Dialed Detail
  answered (Outcome.ok accepted payload) = admitted payload
  answered (Outcome.ok (refused refusal) payload) = fails (turned_away refusal)
  answered (Outcome.err e rest) = fails (unread e)

  abbrev pub after_write : List ℕ → Outcome WriteError (Unit {0}) → Dial
  after_write incoming (Outcome.ok done sent) = record {
    sent = sent;
    result = answered (Response.read api incoming);
  }
  after_write incoming (Outcome.err e sent) = record { sent = sent; result = fails (unwritten e) }

  -- The handshake that `preflight`, `request_service`, `request_stdio` and `open_on` share.
  unfoldable pub handshake : Security → Request → List ℕ → Dial
  handshake security r incoming = after_write incoming (write_checked security r [])

  -- `Connector::open_on`
  unfoldable pub open_on : Connector → Session → List ℕ → Dial
  unfolding handshake request
  open_on connector session incoming =
      if session.peer == connector.dial
      then (if session.opens
          then handshake session.security (request connector) incoming
          else record { sent = []; result = fails no_stream })
      else record { sent = []; result = fails (wrong_peer connector.dial session.peer) }

-- `ServiceSession`
pub record ServiceSession : Type 0 where
  pub session : Session
  pub connector : Connector

-- `Connector::open_service`, over what the connect of the node gave.
unfoldable pub open_service : Connector → Option Session → Option ServiceSession
open_service connector none = none
open_service connector (some session) = some (record { session = session; connector = connector })

-- `ServiceSession::open_bi`
unfoldable pub open_bi : (api : Details) → ServiceSession → List ℕ → Dial api
unfolding open_on
open_bi api s incoming = open_on api s.connector s.session incoming
