-- ===== src/Expose.antt =====
-- src/bin/tightbeam/expose.rs: the command that publishes services, up to the run of the exposer. What it
-- prints is the lines, each its facts without the sentence; an error prints none of them. The terminal,
-- what a path of a raw stream is, and the gate library are parameters.
pub mod Risks
pub mod Warned
use tightbeam.Base.{
  ℕ, Bool, true, false, ◌&&◌, Option, none, some, List, [], ◌∷◌, ◌++◌, any, if◌then◌else◌,
  same_bytes,
}
use tightbeam.Base.Bytes.{Text}
use tightbeam.Base.Results.{Result, ok, err, ◌>>=◌, map_err, some_or}
use tightbeam.Security.{PeerProof, Security}
use tightbeam.Catalog.{Posture, opened, gated}
use tightbeam.Gate.{Gates, Unresolved, resolve_gate, prove_security}
use tightbeam.Grammar.{Spec}
use tightbeam.Router.{Exposer}
use tightbeam.Router.Build.{
  Router, BuildError, refusal, new, parse, declare, public_unsafe_verb, expose,
}
use tightbeam.Router.Listing.{
  Metering, RawSource, path, stdin, TargetKind, handler_kind, raw_stream_kind, ManifestEntry, names,
  manifest,
}

pub record ExposeCmd : Type 0 where
  pub services : List Text
  pub public : Bool
  pub public_unsafe : List Text
  pub quiet : Bool

pub data ExposeError : Type 0 where
  ungated : Unresolved → ExposeError
  build : BuildError → ExposeError
  bad_name : Text → ExposeError
  unproven : (declared : PeerProof) → ExposeError

-- `gate_description`
pub data GateLine : Type 0 where
  anyone unprovisioned : GateLine
  rooted_at : ℕ → GateLine

abbrev pub described : Option ℕ → GateLine
described none = unprovisioned
described (some root) = rooted_at root

unfoldable pub gate_description : ExposeCmd → Option ℕ → GateLine
gate_description cmd root = if cmd.public then anyone else described root

pub data Risk : Type 0 where
  path_bytes : Text → Risk
  piped_stdin raw_bytes : Risk

pub data Line : Type 0 where
  banner : (node : ℕ) → List Text → GateLine → Line
  warning : Text → Risk → Line

abbrev pub risk : Option RawSource → Risk
risk (some (path absolute)) = path_bytes absolute
risk (some stdin) = piped_stdin
risk none = raw_bytes

abbrev pub is_opened : Posture → Bool
is_opened opened = true
is_opened gated = false

abbrev pub is_raw : TargetKind → Bool
is_raw raw_stream_kind = true
is_raw handler_kind = false

-- `expose_unsafe_warning`
unfoldable pub expose_unsafe_warning : List ManifestEntry → List Line
expose_unsafe_warning [] = []
expose_unsafe_warning (m ∷ ms) =
    let rest = expose_unsafe_warning ms in
    if is_opened m.posture && is_raw m.kind then warning m.name (risk m.raw_source) ∷ rest else rest

module _ (gates : Gates) where
  open gates use {Gate, Revocations, open_gate, parse_service}

  unfoldable pub effective_gate : ExposeCmd → Option ℕ → Revocations → Result ExposeError Gate
  unfolding resolve_gate
  effective_gate cmd root revocations =
      if cmd.public then ok open_gate else map_err ungated (resolve_gate gates root revocations)

  abbrev pub parse_name : Text → Result ExposeError Text
  parse_name name = some_or (bad_name name) (parse_service name)

  unfoldable pub parse_names : List Text → Result ExposeError (List Text)
  parse_names [] = ok []
  parse_names (name ∷ names) = do
    first ← parse_name name
    rest ← parse_names names
    ok (first ∷ rest)

  module _ (terminal : Bool) (openable : Spec → Bool) where
    abbrev pub with_unsafe : List Text → Router → Result ExposeError Router
    with_unsafe [] router = ok router
    with_unsafe (n ∷ ns) router = do
      proper ← parse_names (n ∷ ns)
      map_err build (declare parse_service terminal openable (public_unsafe_verb proper) router)

    module _ (metering : Text → Metering) (raw_source : Text → RawSource) where
      abbrev pub announced : ExposeCmd → ℕ → Option ℕ → List Text → Exposer → List Line
      announced cmd node root names exposer =
          if cmd.quiet
          then []
          else banner node names (gate_description cmd root)
            ∷ expose_unsafe_warning (manifest metering raw_source exposer)

      -- `ExposeCmd::run`: the lines, and the exposer that runs.
      unfoldable pub run_expose :
          ExposeCmd
          → (node : ℕ) → (root : Option ℕ) → Revocations
          → Security
          → Result ExposeError (List Line × Exposer)
      unfolding effective_gate expose prove_security
      run_expose cmd node root revocations security = do
        gate ← effective_gate cmd root revocations
        parsed ← map_err build (parse parse_service terminal openable cmd.services (new cmd.public))
        router ← with_unsafe cmd.public_unsafe parsed
        exposer ← map_err (λ r. build (refusal r)) (expose router)
        proven ← map_err unproven (prove_security gates gate security)
        ok (announced cmd node root (names router.services) exposer, exposer)
