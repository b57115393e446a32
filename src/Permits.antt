-- ===== src/Permits.antt =====
-- src/tunnel/exposer.rs: the permit pools of a node and the half that each session keeps. A semaphore
-- belongs to the asynchronous runtime. What is used of it is that a permit is taken at once or not at
-- all, and comes back when the value that holds it is dropped.

pub mod Counts
use tightbeam.Base.{ℕ, suc, ◌*◌, ◌^◌, ◌≡◌, Bool, true, false, Option, none, some}

abbrev pub max_sessions : ℕ
max_sessions = 256

abbrev pub max_streams_per_session : ℕ
max_streams_per_session = 256

abbrev pub raw_stream_open_permits : ℕ
raw_stream_open_permits = 16

abbrev pub public_session_permits : ℕ
public_session_permits = 32

abbrev pub public_stream_permits : ℕ
public_stream_permits = 4

abbrev pub proven_stream_permits : ℕ
proven_stream_permits = 8

-- In nanoseconds.
abbrev pub proven_stream_deadline : ℕ
proven_stream_deadline = 5 * 10 ^ 9

-- `Semaphore::{new, try_acquire_owned}`, and the drop of a permit.
pub record Semaphores : Type 1 where
  pub Semaphore : Type 0
  pub new : ℕ → Semaphore
  pub available : Semaphore → ℕ
  pub try_acquire : Semaphore → Option Semaphore
  pub release : Semaphore → Semaphore
  pub starts : (n : ℕ) → available (new n) ≡ n
  pub refuses : (s : Semaphore) → try_acquire s ≡ none → available s ≡ 0
  pub takes : (s t : Semaphore) → try_acquire s ≡ some t → available s ≡ suc (available t)
  pub returns : (s : Semaphore) → available (release s) ≡ suc (available s)

-- `OwnedSemaphorePermit` of a stream, by the pool it belongs to.
pub data Permit : Type 0 where
  public_stream proven_stream : Permit

module _ (semaphores : Semaphores) where
  open semaphores use {Semaphore, new, try_acquire, release}

  -- `PublicPool`, and the pool of the proven-only routes beside it.
  pub record Pools : Type 0 where
    pub sessions : Semaphore
    pub streams : Semaphore
    pub proven : Semaphore

  unfoldable pub new_pools : Pools
  new_pools = record {
    sessions = new public_session_permits;
    streams = new public_stream_permits;
    proven = new proven_stream_permits;
  }

  -- `PublicSession::enter`: whether the session holds its permit, and the pool.
  unfoldable pub enter : Bool → Semaphore → Option (Bool × Semaphore)
  enter true sessions = some (true, sessions)
  enter false sessions = elim (try_acquire sessions) [ none ↦ none | some left ↦ some (true, left) ]

  -- The drop of a stream's permit.
  unfoldable pub give_back : Option Permit → Pools → Pools
  give_back none pools = pools
  give_back (some public_stream) pools = record pools { streams = release pools.streams }
  give_back (some proven_stream) pools = record pools { proven = release pools.proven }

  -- The drop of a session's permit.
  unfoldable pub leave : Bool → Pools → Pools
  leave false pools = pools
  leave true pools = record pools { sessions = release pools.sessions }
