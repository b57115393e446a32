-- ===== src/Security.antt =====
-- src/security.rs: the one predicate by which a transport's declared peer proof lets a credential
-- move. `PeerProof` and `Security` are declared by the transport library; the source matches every
-- constructor of the first and reads the one field of the second.
use tightbeam.Base.{Bool, true, false}

pub data PeerProof : Type 0 where
  proven in_process announced : PeerProof

pub record Security : Type 0 where
  pub peer : PeerProof

abbrev pub proves : PeerProof → Bool
proves proven = true
proves in_process = true
proves announced = false

unfoldable pub peer_proven : Security → Bool
peer_proven security = proves security.peer

-- `TransportInsecure`
pub record TransportInsecure : Type 0 where
  pub declared : PeerProof
