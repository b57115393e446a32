-- ===== src/Gate.antt =====
-- src/tunnel/admit.rs and src/tunnel/exposer.rs: the gate of a node, what a host can refuse a stream
-- for, and the refusal that the dialer is told.
-- The gate, its witnesses, its tokens and its keys belong to the gate library, and are a parameter
-- with what that library documents of an open gate's witness. A cause keeps no source error.
use tightbeam.Base.{ℕ, ◌≡◌, Bool, true, false, not, ◌&&◌, Option, none, [], ◌∷◌, if◌then◌else◌}
use tightbeam.Base.Bytes.{Text}
use tightbeam.Base.Results.{Result, ok, err, some_or, ◌>>=◌}
use tightbeam.Security.{PeerProof, Security, peer_proven}
use tightbeam.Policy.{Origin, opened, proven}
use tightbeam.Cut.{Cap}
use tightbeam.Protocol.Frames.{Details, Refusal, not_admitted, unavailable}

-- `nauthy::Refusal`
pub data Ruling : Type 0 where
  missing not_granted revoked undecided : Ruling

pub data PublicCap : Type 0 where
  public_sessions public_streams : PublicCap

pub data HostRefusal : Type 0 where
  malformed_capability unknown_key peer_key proven_at_capacity unrevocable : HostRefusal
  peer_not_proven : (declared : PeerProof) → HostRefusal
  gate : Ruling → HostRefusal
  public_at_capacity : PublicCap → HostRefusal

-- A `Gate` and the `Admitted` witness that it mints. `chain` is what a token holds for the live cut,
-- and `parse_service` a service name as it is spelled afterwards.
pub record Gates : Type 1 where
  pub Gate : Type 0
  pub Admitted : Type 0
  pub Token : Type 0
  pub Revocations : Type 0
  pub open_gate : Gate
  pub rooted : ℕ → Revocations → Gate
  pub wants_capability : Gate → Bool
  pub verify_key : ℕ → Option ℕ
  pub parse : Text → Option Token
  pub parse_service : Text → Option Text
  pub is_authority_bound : Token → Bool
  pub chain : Token → Cap
  pub admit_witnessed : Gate → ℕ → Option Token → Text → Result Ruling Admitted
  pub admit_foreign_witnessed : Gate → ℕ → Token → Token → Text → Result Ruling Admitted
  pub admit_proven : Gate → ℕ → Result Ruling Admitted
  pub revocable_peer : Admitted → Option ℕ
  pub is_member : Admitted → Bool
  pub origin : Admitted → Origin
  pub open_wants : wants_capability open_gate ≡ false
  pub rooted_wants : (key : ℕ) (r : Revocations) → wants_capability (rooted key r) ≡ true
  pub opens :
      (key : ℕ) (service : Text) (w : Admitted)
      → admit_witnessed open_gate key none service ≡ ok w
      → (origin w ≡ opened) × (is_member w ≡ false)
  pub proves : (g : Gate) (key : ℕ) (w : Admitted) → admit_proven g key ≡ ok w → origin w ≡ proven

pub data Unresolved : Type 0 where
  no_root unusable_key : Unresolved

-- `resolve_gate`
unfoldable pub resolve_gate :
    (gates : Gates) → Option ℕ → gates.Revocations → Result Unresolved (gates.Gate)
resolve_gate gates root revocations = do
  node ← some_or no_root root
  key ← some_or unusable_key (gates.verify_key node)
  ok (gates.rooted key revocations)

-- `Exposer::prove_security`: what the refusal names is the proof that the transport declared.
unfoldable pub prove_security :
    (gates : Gates) → gates.Gate → Security → Result PeerProof (Unit {0})
prove_security gates base security =
    if gates.wants_capability base && not (peer_proven security) then err security.peer else ok tt

-- "the gate did not finish deciding in time; retry"
abbrev pub undecided_detail : Text
undecided_detail =
    b't' ∷ b'h' ∷ b'e' ∷ 0x20 ∷ b'g' ∷ b'a' ∷ b't' ∷ b'e' ∷ 0x20 ∷ b'd' ∷ b'i' ∷ b'd' ∷ 0x20 ∷ b'n'
    ∷ b'o' ∷ b't' ∷ 0x20 ∷ b'f' ∷ b'i' ∷ b'n' ∷ b'i' ∷ b's' ∷ b'h' ∷ 0x20 ∷ b'd' ∷ b'e' ∷ b'c'
    ∷ b'i' ∷ b'd' ∷ b'i' ∷ b'n' ∷ b'g' ∷ 0x20 ∷ b'i' ∷ b'n' ∷ 0x20 ∷ b't' ∷ b'i' ∷ b'm' ∷ b'e'
    ∷ b';' ∷ 0x20 ∷ b'r' ∷ b'e' ∷ b't' ∷ b'r' ∷ b'y' ∷ []

module _ (api : Details) where
  open api use {Detail, bounded}

  unfoldable pub wire_refusal : HostRefusal → Refusal Detail
  wire_refusal malformed_capability = not_admitted
  wire_refusal unknown_key = not_admitted
  wire_refusal peer_key = not_admitted
  wire_refusal proven_at_capacity = not_admitted
  wire_refusal unrevocable = not_admitted
  wire_refusal (peer_not_proven declared) = not_admitted
  wire_refusal (public_at_capacity cap) = not_admitted
  wire_refusal (gate missing) = not_admitted
  wire_refusal (gate not_granted) = not_admitted
  wire_refusal (gate revoked) = not_admitted
  wire_refusal (gate undecided) = unavailable (bounded undecided_detail)
