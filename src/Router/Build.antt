-- ===== src/Router/Build.antt =====
-- src/tunnel/router.rs: the verbs that declare a router. A handler is here its marker, and the parse of
-- entries is that of tightbeam.Grammar. Each verb consumes the router that it is called on.
pub mod Live
use tightbeam.Base.{Bool, Option, List, [], ◌∷◌, if◌then◌else◌}
use tightbeam.Base.Bytes.{Text}
use tightbeam.Base.Results.{Result, ok, err, ◌>>=◌, map_err}
use tightbeam.Policy.{PublicUse, opt_in}
use tightbeam.Policy
use tightbeam.Router.{
  Target, Access, family, member, proven_only, Services, Refusal, Exposer, bind, bind_gated, prove,
}
use tightbeam.Grammar.{Misspelt, Spec, not_an_endpoint, validate_forward, extend_parse}

-- `gate` is whether the gate is the open one.
pub record Router : Type 0 where
  pub services : Services
  pub public_request : List Text
  pub public_unsafe_request : List Text
  pub node_open : Bool

pub data BuildError : Type 0 where
  refusal : Refusal → BuildError
  misspelt : Misspelt → BuildError

unfoldable pub new : Bool → Router
new node_open = record {
  services = [];
  public_request = [];
  public_unsafe_request = [];
  node_open = node_open;
}

abbrev pub with_services : Router → Result Refusal Services → Result BuildError Router
with_services router bound =
    map_err refusal bound >>= λ services. ok (record router { services = services })

unfoldable pub service : Text → PublicUse → Router → Result BuildError Router
service name exposure router =
    with_services router (bind_gated name exposure family router.services)

unfoldable pub member_service : Text → PublicUse → Router → Result BuildError Router
member_service name exposure router =
    with_services router (bind_gated name exposure member router.services)

-- The handler's marker is proven-only by its type.
unfoldable pub proven_service : Text → Router → Result BuildError Router
proven_service name router = with_services router (
    bind (record { name = name; target = Target.handler Policy.proven_only; access = proven_only })
      router.services)

unfoldable pub echo : Text → Router → Result BuildError Router
unfolding service
echo name router = service name opt_in router

unfoldable pub forward : Text → Text → Router → Result BuildError Router
unfolding service
forward name addr router =
    if validate_forward addr then service name opt_in router else err (misspelt not_an_endpoint)

unfoldable pub raw_stream : Text → (openable : Bool) → Router → Result BuildError Router
raw_stream name openable router = with_services router (
    bind (record { name = name; target = Target.raw_stream openable; access = family })
      router.services)

module _ (parse_service : Text → Option Text) (terminal : Bool) (openable : Spec → Bool) where
  unfoldable pub parse : List Text → Router → Result BuildError Router
  parse entries router =
      map_err misspelt (extend_parse parse_service terminal openable entries router.services)
      >>= λ services. ok (record router { services = services })

  pub data Verb : Type 0 where
    service_verb member_verb : Text → PublicUse → Verb
    proven_verb echo_verb : Text → Verb
    forward_verb : Text → (addr : Text) → Verb
    raw_stream_verb : Text → (openable : Bool) → Verb
    parse_verb public_verb public_unsafe_verb : List Text → Verb

  -- `Router::public` and `Router::public_unsafe` are the last two.
  unfoldable pub declare : Verb → Router → Result BuildError Router
  unfolding service member_service proven_service echo forward raw_stream parse
  declare (service_verb name exposure) router = service name exposure router
  declare (member_verb name exposure) router = member_service name exposure router
  declare (proven_verb name) router = proven_service name router
  declare (echo_verb name) router = echo name router
  declare (forward_verb name addr) router = forward name addr router
  declare (raw_stream_verb name openable) router = raw_stream name openable router
  declare (parse_verb entries) router = parse entries router
  declare (public_verb names) router = ok (record router { public_request = names })
  declare (public_unsafe_verb names) router = ok (record router { public_unsafe_request = names })

  -- A chain of declarations.
  unfoldable pub declare_all : List Verb → Router → Result BuildError Router
  unfolding declare
  declare_all [] router = ok router
  declare_all (v ∷ vs) router = declare v router >>= declare_all vs

unfoldable pub expose : Router → Result Refusal Exposer
expose router =
    prove router.services router.node_open router.public_request router.public_unsafe_request
