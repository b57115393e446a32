-- ===== src/Admit.antt =====
-- src/tunnel/admit.rs: `admit`, the ruling on one stream. A service that is open to anyone takes the
-- public permits, a proven-only route its own permit, and every other service faces the base gate and
-- touches no pool. A node id and a key are numbers and instants are nanoseconds. `knows` is the check
-- that a proven-only route was registered with.
pub mod Branches
pub mod Counts
use tightbeam.Base.{
  ℕ, ◌+◌, ◌≡◌, Bool, true, false, not, ◌&&◌, ◌||◌, Option, none, some, List, [], ◌∷◌, ◌++◌,
  if◌then◌else◌,
}
use tightbeam.Base.Bytes.{Text}
use tightbeam.Base.Results.{Result, ok, err, ◌>>=◌, ◌>>◌, map_err, some_or}
use tightbeam.Security.{Security, peer_proven}
use tightbeam.Cut.{Cap}
use tightbeam.Router.{Services, Route, get, contains, is_proven_only}
use tightbeam.Permits.{
  Semaphores, Pools, Permit, public_stream, proven_stream, enter, give_back, proven_stream_deadline,
}
use tightbeam.Gate.{
  Gates, HostRefusal, malformed_capability, unknown_key, peer_key, proven_at_capacity, unrevocable,
  peer_not_proven, public_at_capacity, public_sessions, public_streams,
}

pub record SessionPeer : Type 0 where
  pub node : ℕ
  pub security : Security

-- The two fields of a request that carry a token.
pub record Presented : Type 0 where
  pub capability : Option Text
  pub membership : Option Text

pub record ProvenStream : Type 0 where
  pub key : ℕ
  pub deadline : ℕ

-- `Services::proven`: whether a name is served by a proven-only route.
abbrev pub proven_route : Option Route → Bool
proven_route none = false
proven_route (some route) = is_proven_only route.access

abbrev pub refuse_unless : {E : Type 0} → Bool → E → Result E (Unit {0})
refuse_unless true e = ok tt
refuse_unless false e = err e

module _ (gates : Gates) (semaphores : Semaphores) where
  open gates use {Gate, Admitted, Token}
  open semaphores use {try_acquire, release}

  pub record AdmittedStream : Type 0 where
    pub witness : Admitted
    pub peer : ℕ
    pub ruled : List Cap
    pub proven : Option ProvenStream
    pub stream_permit : Option Permit

  pub record Admission : Type 0 where
    pub gate : Gate
    pub public : List Text
    pub public_unsafe : List Text
    pub routes : Services
    pub knows : Text → ℕ → Bool

  -- What an admission may take from: the node's pools, and whether the session holds its permit.
  pub record Slots : Type 0 where
    pub pools : Pools semaphores
    pub held : Bool

  abbrev pub Ruled : Type 0
  Ruled = Slots × Result HostRefusal AdmittedStream

  abbrev open_stream : ℕ → Admitted → AdmittedStream
  open_stream key witness = record {
    witness = witness;
    peer = key;
    ruled = [];
    proven = none;
    stream_permit = some public_stream;
  }

  -- The stream's permit first. A session that is refused drops it again.
  unfoldable pub take_public : ℕ → Admitted → Slots → Ruled
  unfolding enter
  take_public key witness slots = elim (try_acquire slots.pools.streams) [
    | none ↦ (slots, err (public_at_capacity public_streams))
    | some streams ↦ elim (enter semaphores slots.held slots.pools.sessions) [
      | none ↦ (
        record slots {
          pools =
              give_back semaphores (some public_stream)
                (record (slots.pools) { streams = streams });
        },
        err (public_at_capacity public_sessions),
      )
      | some (held, sessions) ↦ (
        record {
          pools = record (slots.pools) { streams = streams; sessions = sessions };
          held = held;
        },
        ok (open_stream key witness),
      )
    ]
  ]

  -- The branch of a service that the operator opened.
  unfoldable pub admit_public : ℕ → Text → Slots → Ruled
  unfolding take_public
  admit_public key service slots = elim (gates.admit_witnessed gates.open_gate key none service) [
    | err ruling ↦ (slots, err (HostRefusal.gate ruling))
    | ok witness ↦ take_public key witness slots
  ]

  -- The checks of a proven-only route, and the key that a revocation can find.
  unfoldable pub proven_key : Admission → SessionPeer → ℕ → Text → Result HostRefusal (ℕ × Admitted)
  proven_key admission peer key service = do
    refuse_unless (peer_proven peer.security) (peer_not_proven peer.security.peer)
    witness ← map_err HostRefusal.gate (gates.admit_proven admission.gate key)
    named ← some_or unrevocable (gates.revocable_peer witness)
    refuse_unless (admission.knows service named) unknown_key
    ok (named, witness)

  abbrev key_stream : ℕ → ℕ → ℕ × Admitted → AdmittedStream
  key_stream now key found = record {
    witness = found.1;
    peer = key;
    ruled = [];
    proven = some (record { key = found.0; deadline = now + proven_stream_deadline });
    stream_permit = some proven_stream;
  }

  -- The branch of a proven-only route: the pool is touched once every check has passed.
  unfoldable pub admit_known : ℕ → Admission → SessionPeer → ℕ → Text → Slots → Ruled
  unfolding proven_key
  admit_known now admission peer key service slots = elim (proven_key admission peer key service) [
    | err refusal ↦ (slots, err refusal)
    | ok found ↦ elim (try_acquire slots.pools.proven) [
      | none ↦ (slots, err proven_at_capacity)
      | some left ↦ (
        record slots { pools = record (slots.pools) { proven = left } },
        ok (key_stream now key found),
      )
    ]
  ]

  -- `map(Cap::parse).transpose()`
  abbrev pub parsed : Option Text → Result HostRefusal (Option Token)
  parsed none = ok none
  parsed (some text) = some_or malformed_capability (gates.parse text) >>= λ token. ok (some token)

  -- The second slot is parsed only behind a slip that is bound to an authority.
  abbrev pub badge : Option Text → Option Token → Result HostRefusal (Option Token)
  badge membership none = ok none
  badge membership (some slip) =
      if gates.is_authority_bound slip then parsed membership else ok none

  abbrev pub ruling_of : Gate → ℕ → Text → Option Token → Option Token → Result HostRefusal Admitted
  ruling_of base key service (some slip) (some vouching) =
      map_err HostRefusal.gate (gates.admit_foreign_witnessed base key slip vouching service)
  ruling_of base key service (some slip) none =
      map_err HostRefusal.gate (gates.admit_witnessed base key (some slip) service)
  ruling_of base key service none vouching =
      map_err HostRefusal.gate (gates.admit_witnessed base key none service)

  abbrev pub listed : Option Token → List Cap
  listed none = []
  listed (some token) = gates.chain token ∷ []

  -- The branch of every other name, served or not.
  unfoldable pub admit_gated :
      Gate → SessionPeer → ℕ → Presented → Text → Result HostRefusal AdmittedStream
  admit_gated base peer key presented service = do
    refuse_unless (not (gates.wants_capability base && not (peer_proven peer.security)))
        (peer_not_proven peer.security.peer)
    cap ← parsed presented.capability
    membership ← badge presented.membership cap
    witness ← ruling_of base key service cap membership
    ok (record {
      witness = witness;
      peer = key;
      ruled = if gates.wants_capability base then listed cap ++ listed membership else [];
      proven = none;
      stream_permit = none;
    })

  abbrev pub is_opened : Admission → Text → Bool
  is_opened admission service =
      contains admission.public service || contains admission.public_unsafe service

  -- What follows the check of the peer's key.
  unfoldable pub admit_key : ℕ → Admission → SessionPeer → ℕ → Presented → Text → Slots → Ruled
  unfolding admit_public admit_known admit_gated
  admit_key now admission peer key presented service slots =
      if is_opened admission service
      then admit_public key service slots
      else if proven_route (get admission.routes service)
      then admit_known now admission peer key service slots
      else (slots, admit_gated admission.gate peer key presented service)

  unfoldable pub admit : ℕ → Admission → SessionPeer → Presented → Text → Slots → Ruled
  unfolding admit_key
  admit now admission peer presented service slots = elim (gates.verify_key peer.node) [
    | none ↦ (slots, err peer_key)
    | some key ↦ admit_key now admission peer key presented service slots
  ]
