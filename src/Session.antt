-- ===== src/Session.antt =====
-- src/tunnel/exposer.rs: `serve_session` and the loop of `Exposer::run`, as steps. A stream in flight
-- reads its request, and then holds what its admission gave it until it ends. Its end is a step that
-- the stream, the peer or a deadline takes at any time. The runtime picks the order of the steps.
pub mod Accounts
pub mod Capacity
pub mod Draining
use tightbeam.Base.{
  ℕ, ◌<◌, ◌≡◌, Bool, true, false, Option, none, some, List, [], ◌∷◌, ◌++◌, length, not, ◌&&◌, ◌||◌,
  ltb,
}
use tightbeam.Base.Bytes.{Text}
use tightbeam.Base.Results.{Result, ok, err}
use tightbeam.Permits.{
  Semaphores, Pools, Permit, give_back, leave, new_pools, max_sessions, max_streams_per_session,
}
use tightbeam.Gate.{Gates, HostRefusal}
use tightbeam.Admit.{SessionPeer, Presented, AdmittedStream, Admission, Slots, Ruled, admit}

pub data Pipe : Type 0 where
  reading : Pipe
  serving : Option Permit → Pipe

pub record Session : Type 0 where
  pub held : Bool
  pub accepting : Bool
  pub pipes : List Pipe

abbrev pub new_session : Session
new_session = record { held = false; accepting = true; pipes = [] }

abbrev pub permit : Pipe → Option Permit
permit reading = none
permit (serving o) = o

-- The guards of the arms of the `select!`: an accept, the next stream that ends, and a sweep.
abbrev pub may_accept : Session → Bool
may_accept s = s.accepting && ltb (length s.pipes) max_streams_per_session

abbrev pub in_flight : List Pipe → Bool
in_flight [] = false
in_flight (pipe ∷ pipes) = true

unfoldable pub may_sweep : Session → Bool
may_sweep s = s.accepting || in_flight s.pipes

-- `else`: no arm is left.
unfoldable pub breaks : Session → Bool
unfolding may_sweep
breaks s = not (may_accept s || in_flight s.pipes || may_sweep s)

module _ (gates : Gates) (semaphores : Semaphores) where
  pub record Served : Type 0 where
    pub pools : Pools semaphores
    pub session : Session

  abbrev pub at : Pools semaphores → Bool → Bool → List Pipe → Served
  at pools held accepting pipes = record {
    pools = pools;
    session = record { held = held; accepting = accepting; pipes = pipes };
  }

  -- What an admission leaves of its stream.
  abbrev pub ruled_pipe : Result HostRefusal (AdmittedStream gates semaphores) → List Pipe
  ruled_pipe (err refusal) = []
  ruled_pipe (ok s) = serving s.stream_permit ∷ []

  pub data Step : Served → Served → Type 0 where
    accepts :
        {pools : Pools semaphores} {held : Bool} {pipes : List Pipe}
        → length pipes < max_streams_per_session
        → Step (at pools held true pipes) (at pools held true (reading ∷ pipes))
    accept_fails :
        {pools : Pools semaphores} {held : Bool} {pipes : List Pipe}
        → length pipes < max_streams_per_session
        → Step (at pools held true pipes) (at pools held false pipes)
    rules :
        {pools : Pools semaphores} {held accepting : Bool} (before after : List Pipe) (now : ℕ)
        (admission : Admission gates semaphores) (peer : SessionPeer) (presented : Presented)
        (service : Text) (r : Ruled gates semaphores)
        → admit gates semaphores now admission peer presented service
            (record { pools = pools; held = held })
          ≡ r
        → Step
            (at pools held accepting (before ++ reading ∷ after))
            (at (r.0.pools) (r.0.held) accepting (before ++ (ruled_pipe r.1 ++ after)))
    ends :
        {pools : Pools semaphores} {held accepting : Bool} (before after : List Pipe) (pipe : Pipe)
        → Step
            (at pools held accepting (before ++ pipe ∷ after))
            (at (give_back semaphores (permit pipe) pools) held accepting (before ++ after))
    -- A sweep that finds nothing to cut.
    sweeps : (s : Served) → may_sweep s.session ≡ true → Step s s

  pub record Node : Type 0 where
    pub pools : Pools semaphores
    pub sessions : List Session

  -- `else => break`, or a sweep that cuts.
  pub data Closes : Session → Type 0 where
    is_done : (s : Session) → breaks s ≡ true → Closes s
    is_cut : (s : Session) → may_sweep s ≡ true → Closes s

  abbrev pub drop_pipes : List Pipe → Pools semaphores → Pools semaphores
  drop_pipes [] pools = pools
  drop_pipes (pipe ∷ pipes) pools = drop_pipes pipes (give_back semaphores (permit pipe) pools)

  pub data NodeStep : Node → Node → Type 0 where
    connects :
        {pools : Pools semaphores} {sessions : List Session}
        → length sessions < max_sessions
        → NodeStep
            (record { pools = pools; sessions = sessions })
            (record { pools = pools; sessions = new_session ∷ sessions })
    within :
        {s t : Served} (before after : List Session)
        → Step s t
        → NodeStep
            (record { pools = s.pools; sessions = before ++ s.session ∷ after })
            (record { pools = t.pools; sessions = before ++ t.session ∷ after })
    closes :
        {pools : Pools semaphores} (before after : List Session) (s : Session)
        → Closes s
        → NodeStep
            (record { pools = pools; sessions = before ++ s ∷ after })
            (record {
              pools = leave semaphores s.held (drop_pipes s.pipes pools);
              sessions = before ++ after;
            })

  abbrev pub started : Node
  started = record { pools = new_pools semaphores; sessions = [] }

  pub data Reach : Node → Type 0 where
    start : Reach started
    later : {a b : Node} → Reach a → NodeStep a b → Reach b
