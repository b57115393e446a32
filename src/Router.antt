-- ===== src/Router.antt =====
-- src/tunnel/router.rs and the construction of src/tunnel/exposer.rs: the routes of a node, the
-- overlays that open some of them, and the proof that must hold before a node runs. The route table
-- is a list that a name looks up, an error is its class without the sentence, and whether a raw
-- stream's source may be opened is the file system's answer.
pub mod Overlays
pub mod Interlocks
pub mod Build
pub mod Listing
use tightbeam.Base.{
  Bool, true, false, not, ◌&&◌, ◌||◌, Option, none, some, List, [], ◌∷◌, any, if◌then◌else◌,
  same_bytes,
}
use tightbeam.Base.Bytes.{Text}
use tightbeam.Base.Results.{Result, ok, err, ◌>>=◌, ◌>>◌}
use tightbeam.Catalog.{Posture, gated, opened}
use tightbeam.Policy.{PublicUse, open_safe, accepts, proven}

pub data Target : Type 0 where
  handler : PublicUse → Target
  raw_stream : (openable : Bool) → Target

pub data Access : Type 0 where
  family member proven_only : Access

pub record Route : Type 0 where
  pub name : Text
  pub target : Target
  pub access : Access

abbrev pub Services : Type 0
Services = List Route

pub data Refusal : Type 0 where
  already_defined no_such_service not_a_raw_source bad_source proven_only_opened : Refusal
  no_public_use raw_source_opened member_only_opened dead_proven_route : Refusal

-- `Router::bind`
unfoldable pub bind : Route → Services → Result Refusal Services
bind route services =
    if any (λ r. same_bytes r.name route.name) services
    then err already_defined
    else ok (route ∷ services)

-- `Router::bind_gated`
unfoldable pub bind_gated : Text → PublicUse → Access → Services → Result Refusal Services
unfolding bind
bind_gated name exposure access services =
    if accepts exposure proven
    then err dead_proven_route
    else bind (record { name = name; target = handler exposure; access = access }) services

abbrev pub get : Services → Text → Option Route
get [] name = none
get (r ∷ rs) name = let rest = get rs name in if same_bytes r.name name then some r else rest

abbrev pub contains : List Text → Text → Bool
contains names name = any (λ n. same_bytes n name) names

abbrev pub unsafe_target : Target → Result Refusal (Unit {0})
unsafe_target (handler exposure) = err not_a_raw_source
unsafe_target (raw_stream openable) = if openable then ok tt else err bad_source

abbrev pub unsafe_found : Option Route → Result Refusal (Unit {0})
unsafe_found none = err no_such_service
unsafe_found (some route) = unsafe_target route.target

unfoldable pub prove_unsafe : Services → List Text → Result Refusal (List Text)
prove_unsafe services [] = ok []
prove_unsafe services (name ∷ names) =
    unsafe_found (get services name)
    >> (prove_unsafe services names >>= λ proved. ok (name ∷ proved))

abbrev pub public_target : Target → Result Refusal (Unit {0})
public_target (raw_stream openable) = err raw_source_opened
public_target (handler exposure) = if open_safe exposure then ok tt else err no_public_use

abbrev pub public_route : Access → Target → Result Refusal (Unit {0})
public_route proven_only target = err proven_only_opened
public_route member target = err member_only_opened
public_route family target = public_target target

abbrev pub public_found : Option Route → Result Refusal (Unit {0})
public_found none = err no_such_service
public_found (some route) = public_route route.access route.target

unfoldable pub prove_public : Services → List Text → Result Refusal (List Text)
prove_public services [] = ok []
prove_public services (name ∷ names) =
    public_found (get services name)
    >> (prove_public services names >>= λ proved. ok (name ∷ proved))

abbrev pub is_proven_only : Access → Bool
is_proven_only proven_only = true
is_proven_only member = false
is_proven_only family = false

abbrev pub is_member : Access → Bool
is_member member = true
is_member family = false
is_member proven_only = false

abbrev pub is_keyless : Target → Bool
is_keyless (handler exposure) = not (open_safe exposure)
is_keyless (raw_stream openable) = false

abbrev pub is_raw_stream : Target → Bool
is_raw_stream (handler exposure) = false
is_raw_stream (raw_stream openable) = true

pub record Exposer : Type 0 where
  pub services : Services
  pub node_open : Bool
  pub public : List Text
  pub public_unsafe : List Text

abbrev pub refuse_if : Bool → Refusal → Result Refusal (Unit {0})
refuse_if true refusal = err refusal
refuse_if false refusal = ok tt

-- `Exposer::prove`; `node_open` is whether the gate is the open one.
unfoldable pub prove : Services → Bool → List Text → List Text → Result Refusal Exposer
unfolding prove_unsafe prove_public
prove services node_open public public_unsafe = do
  refuse_if (node_open && any (λ r. is_proven_only r.access) services) proven_only_opened
  refuse_if (node_open && any (λ r. is_keyless r.target) services) no_public_use
  opened_raw ← prove_unsafe services public_unsafe
  refuse_if
      (node_open && any (λ r. is_raw_stream r.target && not (contains opened_raw r.name)) services)
      raw_source_opened
  refuse_if (node_open && any (λ r. is_member r.access) services) member_only_opened
  refuse_if (any (λ r. is_member r.access && contains opened_raw r.name) services)
      member_only_opened
  opened_safe ← prove_public services public
  ok (record {
    services = services;
    node_open = node_open;
    public = opened_safe;
    public_unsafe = opened_raw;
  })

-- The posture of a name, in the catalog from what was requested and in the manifest from what was
-- proved.
unfoldable pub posture : Bool → List Text → List Text → Text → Posture
posture node_open public public_unsafe name =
    if node_open || contains public name || contains public_unsafe name then opened else gated
