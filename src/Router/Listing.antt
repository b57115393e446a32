-- ===== src/Router/Listing.antt =====
-- src/tunnel/router.rs and src/tunnel/exposer.rs: what a node says of its services, in the catalog that
-- a peer reads and in the manifest that a banner is drawn from. The walk of a hash table is the order
-- of the list, and what a route's handler or raw stream declares of itself is looked up by the name.
pub mod Postures
use tightbeam.Base.{Bool, Option, none, some, List, [], ◌∷◌, ◌++◌, map}
use tightbeam.Base.Bytes.{Text}
use tightbeam.Base.Order.{sort_by}
use tightbeam.Catalog.{Posture, gated, ServiceEntry, ServiceCatalog}
use tightbeam.Router.{Target, handler, raw_stream, Route, Services, Exposer, posture}

pub data Metering : Type 0 where
  metered unmetered : Metering

pub data RawSource : Type 0 where
  path : Text → RawSource
  stdin : RawSource

pub data TargetKind : Type 0 where
  handler_kind raw_stream_kind : TargetKind

abbrev pub kind : Target → TargetKind
kind (handler exposure) = handler_kind
kind (raw_stream openable) = raw_stream_kind

pub record ManifestEntry : Type 0 where
  pub name : Text
  pub posture : Posture
  pub kind : TargetKind
  pub metering : Option Metering
  pub raw_source : Option RawSource

abbrev pub itself : Text → Text
itself name = name

abbrev pub entry_name : ServiceEntry → Text
entry_name e = e.name

-- `Services::names`
unfoldable pub names : Services → List Text
names services = sort_by itself (map (λ r. r.name) services)

-- `Services::catalog`, from the overlays as they were asked for.
unfoldable pub catalog : Services → Bool → List Text → List Text → ServiceCatalog
unfolding names
catalog services node_open public public_unsafe = sort_by entry_name (
    map (λ name. record { name = name; posture = posture node_open public public_unsafe name })
      (names services))

abbrev pub with_self : Option Text → ServiceCatalog → ServiceCatalog
with_self none entries = entries
with_self (some name) entries =
    sort_by entry_name (entries ++ record { name = name; posture = gated } ∷ [])

-- `Router::catalog`
unfoldable pub router_catalog :
    Services → Bool → List Text → List Text → Option Text → ServiceCatalog
unfolding catalog
router_catalog services node_open public public_unsafe self_listing =
    with_self self_listing (catalog services node_open public public_unsafe)

module _ (metering : Text → Metering) (raw_source : Text → RawSource) where
  abbrev pub metering_of : Text → Target → Option Metering
  metering_of name (handler exposure) = some (metering name)
  metering_of name (raw_stream openable) = none

  abbrev pub source_of : Text → Target → Option RawSource
  source_of name (handler exposure) = none
  source_of name (raw_stream openable) = some (raw_source name)

  abbrev pub manifest_entry : Exposer → Route → ManifestEntry
  manifest_entry e r = record {
    name = r.name;
    posture = posture e.node_open e.public e.public_unsafe r.name;
    kind = kind r.target;
    metering = metering_of r.name r.target;
    raw_source = source_of r.name r.target;
  }

  -- `Exposer::manifest`, from the overlays as they were proved.
  unfoldable pub manifest : Exposer → List ManifestEntry
  manifest e = sort_by (λ m. m.name) (map (manifest_entry e) e.services)
