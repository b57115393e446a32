-- ===== src/Command.antt =====
-- src/bin/tightbeam/main.rs and the discovery of src/peer.rs: what each command of the binary does to the
-- machine and the network, in order. Whether a step succeeds is the world's answer, and addresses are
-- numbers, as are paths. The parse of the arguments, logs and the text of errors are left out.
pub mod Tidy
use tightbeam.Base.{ℕ, Bool, true, false, ◌||◌, Option, none, some, List, [], ◌∷◌, if◌then◌else◌}

pub data Command : Type 0 where
  expose connect share attenuate revoke tree : Command

pub record Cli : Type 0 where
  pub key : Option ℕ
  pub peers : List (ℕ × List ℕ)
  pub offline : Bool
  pub bind_addr : Option ℕ
  pub command : Command

pub data Role : Type 0 where
  serving dialing : Role

-- `Endpoint::{bind_offline, bind_reachable_with_secret, bind_dialing_with_secret}`
pub data Binding : Type 0 where
  offline_at : (addr : ℕ) → Binding
  reachable dialing_only : Binding

-- `0.0.0.0:0`
abbrev pub any_addr : ℕ
any_addr = 0

abbrev pub by_role : Role → Binding
by_role serving = reachable
by_role dialing = dialing_only

-- The endpoint that `bind_node` asks for.
unfoldable pub binding : Bool → Option ℕ → Role → Binding
binding offline (some addr) role = offline_at addr
binding offline none role = if offline then offline_at any_addr else by_role role

-- `Role::advertised`
abbrev pub advertised : Role → List ℕ → List ℕ
advertised serving sockets = sockets
advertised dialing sockets = []

-- mDNS over the sockets that it was handed, or none of it.
pub data Lan : Type 0 where
  started : (sockets : List ℕ) → Lan
  disabled : Lan

-- The hints are those that were inserted, in order.
pub record Discovery : Type 0 where
  pub hints : List (ℕ × List ℕ)
  pub lan : Lan

-- `Peer::discovery`
unfoldable pub discovery : (mdns : Bool) → List ℕ → List (ℕ × List ℕ) → Role → Discovery
discovery mdns sockets peers role = record {
  hints = peers;
  lan = if mdns then started (advertised role sockets) else disabled;
}

pub data Effect : Type 0 where
  loads_identity : (key : Option ℕ) → Effect
  loads_root loads_denylist : Effect
  binds : Binding → Effect
  discovers : Discovery → Effect
  runs closes : Effect

-- What the world answers: each step's success, the bound sockets, and how the command's own body ends,
-- a signal included.
pub record World : Type 0 where
  pub identity : Bool
  pub root : Bool
  pub denylist : Bool
  pub bind : Bool
  pub mdns : Bool
  pub sockets : List ℕ
  pub body : Bool

abbrev pub Trace : Type 0
Trace = List Effect × Bool

-- A step with `?`.
abbrev pub attempt : Effect → Bool → Trace → Trace
attempt e true rest = (e ∷ rest.0, rest.1)
attempt e false rest = (e ∷ [], false)

-- `bind_node`, `run_until_signalled` and the close after it
abbrev pub on_node : Cli → World → Role → Trace
on_node cli w role =
    attempt (binds (binding cli.offline cli.bind_addr role)) w.bind
      (discovers (discovery w.mdns w.sockets cli.peers role) ∷ runs ∷ closes ∷ [], w.body)

abbrev pub run_command : Command → Cli → World → Trace
run_command tree cli w = (runs ∷ [], w.body)
run_command attenuate cli w = (runs ∷ [], w.body)
run_command revoke cli w = (runs ∷ [], w.body)
run_command share cli w =
    attempt (loads_identity cli.key) w.identity (attempt loads_root w.root (runs ∷ [], w.body))
run_command expose cli w =
    attempt (loads_identity cli.key) w.identity
      (attempt loads_root w.root (attempt loads_denylist w.denylist (on_node cli w serving)))
run_command connect cli w = attempt (loads_identity cli.key) w.identity (on_node cli w dialing)

-- `run`
unfoldable pub run : Cli → World → Trace
unfolding binding discovery
run cli w = run_command cli.command cli w
