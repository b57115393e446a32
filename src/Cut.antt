-- ===== src/Cut.antt =====
-- src/tunnel/cut.rs: what a session's streams were admitted on, and when that ends the session. Keys
-- and revocation ids are numbers and instants are nanoseconds. A capability answers with its root,
-- its ids and its expiry, and whether a number is a key is the key library's answer. A key is the
-- number of its bytes, the first the least. A set is a list without repeats.
pub mod Record
pub mod Streams
pub mod Keyed
pub mod Ending
use tightbeam.Base.{
  ℕ, ◌+◌, ◌-◌, ◌^◌, ◌≡◌, min, Bool, true, false, not, ◌&&◌, ◌||◌, Option, none, some, List, [], ◌∷◌,
  ◌++◌, length, any, ltb, ◌==◌, if◌then◌else◌,
}
use tightbeam.Base.Results.{Result, ok, err, ◌>>=◌}

abbrev pub max_session_chain_ids : ℕ
max_session_chain_ids = 1024

-- A parsed capability, by what the cut asks of it.
pub record Cap : Type 0 where
  pub root : ℕ
  pub revocation_ids : List ℕ
  pub valid_until : Result (Unit {0}) (Option ℕ)

pub data Lease : Type 0 where
  unruled unbounded : Lease
  until : ℕ → Lease

pub data Unrecorded : Type 0 where
  full unreadable_expiry : Unrecorded

pub data Cut : Type 0 where
  recalled untrusted peer_revoked expired : Cut

-- One more read onto the earliest so far: `held.or(until)`, or the smaller of two.
abbrev pub sooner : Option ℕ → Option ℕ → Option ℕ
sooner none until_then = until_then
sooner (some held) none = some held
sooner (some held) (some until_then) = some (min held until_then)

-- `try_fold` from what is held.
unfoldable pub earliest_from :
    Option ℕ → List (Result (Unit {0}) (Option ℕ)) → Result (Unit {0}) (Option ℕ)
earliest_from held [] = ok held
earliest_from held (read ∷ reads) =
    read >>= λ until_then. earliest_from (sooner held until_then) reads

abbrev pub expiries : List Cap → List (Result (Unit {0}) (Option ℕ))
expiries [] = []
expiries (cap ∷ caps) = cap.valid_until ∷ expiries caps

unfoldable pub of_stream : List Cap → Result (Unit {0}) (Option ℕ)
unfolding earliest_from
of_stream ruled = earliest_from none (expiries ruled)

unfoldable pub extend : Lease → Option ℕ → Lease
extend unruled none = unbounded
extend unbounded none = unbounded
extend unruled (some until_then) = until until_then
extend unbounded (some until_then) = until until_then
extend (until held) (some until_then) = until (min held until_then)
extend (until held) none = until held

unfoldable pub lease_lapsed : ℕ → Lease → Bool
lease_lapsed now unruled = false
lease_lapsed now unbounded = false
lease_lapsed now (until t) = ltb t now

pub record AdmittedChains : Type 0 where
  pub roots : List ℕ
  pub ids : List ℕ
  pub anchors : List ℕ
  pub peer : Option ℕ
  pub proven : Bool
  pub lease : Lease

abbrev pub nothing_admitted : AdmittedChains
nothing_admitted = record {
  roots = [];
  ids = [];
  anchors = [];
  peer = none;
  proven = false;
  lease = unruled;
}

-- A set's `contains` and `insert`.
abbrev pub has : List ℕ → ℕ → Bool
has xs x = any (λ y. y == x) xs

abbrev pub insert : ℕ → List ℕ → List ℕ
insert x xs = if has xs x then xs else x ∷ xs

abbrev pub insert_all : List ℕ → List ℕ → List ℕ
insert_all [] xs = xs
insert_all (y ∷ ys) xs = insert y (insert_all ys xs)

abbrev pub all_ids : List Cap → List ℕ
all_ids [] = []
all_ids (cap ∷ caps) = cap.revocation_ids ++ all_ids caps

abbrev pub all_roots : List Cap → List ℕ
all_roots [] = []
all_roots (cap ∷ caps) = cap.root ∷ all_roots caps

-- `filter`, and the set that it is collected into.
abbrev pub fresh_ids : List ℕ → List ℕ → List ℕ
fresh_ids ids [] = []
fresh_ids ids (x ∷ xs) = if has ids x then fresh_ids ids xs else insert x (fresh_ids ids xs)

-- The anchor, the peer and the lease of a stream that ruled on a capability.
abbrev pub anchored : ℕ → Option ℕ → List Cap → AdmittedChains → AdmittedChains
anchored peer stream [] chains = chains
anchored peer stream (first ∷ rest) chains = record {
  roots = chains.roots;
  ids = chains.ids;
  anchors = insert first.root chains.anchors;
  peer = some peer;
  proven = chains.proven;
  lease = extend chains.lease stream;
}

abbrev pub keep : ℕ → List Cap → Option ℕ → AdmittedChains → AdmittedChains
keep peer ruled stream chains = anchored peer stream ruled (record {
  roots = insert_all (all_roots ruled) chains.roots;
  ids = insert_all (fresh_ids chains.ids (all_ids ruled)) chains.ids;
  anchors = chains.anchors;
  peer = chains.peer;
  proven = chains.proven;
  lease = chains.lease;
})

abbrev pub map_unreadable : {A : Type 0} → Result (Unit {0}) A → Result Unrecorded A
map_unreadable (Result.ok a) = ok a
map_unreadable (Result.err e) = err unreadable_expiry

unfoldable pub record_all : ℕ → List Cap → AdmittedChains → Result Unrecorded AdmittedChains
unfolding of_stream extend
record_all peer ruled chains = map_unreadable (of_stream ruled) >>= λ stream.
    if ltb max_session_chain_ids (length chains.ids + length (fresh_ids chains.ids (all_ids ruled)))
    then err full
    else ok (keep peer ruled stream chains)

unfoldable pub record_proven : ℕ → AdmittedChains → AdmittedChains
record_proven peer chains = record {
  roots = chains.roots;
  ids = chains.ids;
  anchors = chains.anchors;
  peer = some peer;
  proven = true;
  lease = chains.lease;
}

unfoldable pub lapsed : AdmittedChains → ℕ → Bool
unfolding lease_lapsed
lapsed chains now = lease_lapsed now chains.lease

abbrev pub listed : Option ℕ → List ℕ
listed none = []
listed (some key) = key ∷ []

-- The other sign of a key: the top bit of its last byte, which is the number's bit 255. `try_new` is
-- whether a number is a key.
unfoldable pub sign_twin : (ℕ → Option ℕ) → ℕ → Option ℕ
sign_twin try_new key =
    if ltb key (2 ^ 255) then try_new (key + 2 ^ 255) else try_new (key - 2 ^ 255)

unfoldable pub peer_keys : (ℕ → Option ℕ) → AdmittedChains → List ℕ
unfolding sign_twin
peer_keys try_new chains = elim chains.peer [
  | none ↦ []
  | some key ↦ key ∷ (if chains.proven then listed (sign_twin try_new key) else [])
]

pub record LiveCuts : Type 0 where
  pub cuts : AdmittedChains → Bool
  pub trusts : ℕ → Bool
  pub revoked_peer : ℕ → Bool

-- The oracle over a denylist that answers for an id and for a key.
unfoldable pub denylist : (ℕ → Bool) → (ℕ → Bool) → LiveCuts
denylist is_revoked is_revoked_key = record {
  cuts = λ chains. any is_revoked chains.ids || any is_revoked_key chains.roots;
  trusts = λ anchor. true;
  revoked_peer = is_revoked_key;
}

unfoldable pub session_cut : LiveCuts → (ℕ → Option ℕ) → AdmittedChains → ℕ → Option Cut
unfolding peer_keys lapsed
session_cut oracle try_new chains now =
    if oracle.cuts chains
    then some recalled
    else if any (λ anchor. not (oracle.trusts anchor)) chains.anchors
    then some untrusted
    else if any oracle.revoked_peer (peer_keys try_new chains)
    then some peer_revoked
    else if lapsed chains now
    then some expired
    else none
