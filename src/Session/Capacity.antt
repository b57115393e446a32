-- ===== src/Session/Capacity.antt =====
-- Where the permits of a node are.
use tightbeam.Base.{
  ◌+◌, ◌≤◌, ◌≡◌, refl, ap, ◌∙◌, List, [], ◌∷◌, ◌++◌, arith, length, length_middle, All, sum_by,
  sum_by_middle, All-middle, All-insert,
}
use tightbeam.Permits.{
  Semaphores, Pools, Permit, public_stream, proven_stream, give_back, new_pools, max_sessions,
  public_stream_permits, public_session_permits, proven_stream_permits,
}
use tightbeam.Permits.Counts.{free, free-give_back, sessions-give_back, leave_returns, free-leave}
use tightbeam.Gate.{Gates}
use tightbeam.Session.{
  Pipe, Session, Served, Node, Step, NodeStep, Reach, permit, drop_pipes, connects, within, closes,
  start, later,
}
use tightbeam.Session.Accounts.{
  pipe_holds, session_holds, session_bit, IsSound, Step-Kept, Step-IsSound,
}

module _ (gates : Gates) (semaphores : Semaphores) where
  open semaphores use {available}

  pub record Accounted (n : Node gates semaphores) : Type 0 where
    pub public_streams :
        available n.pools.streams + sum_by (session_holds public_stream) n.sessions
        ≡ public_stream_permits
    pub proven_streams :
        available n.pools.proven + sum_by (session_holds proven_stream) n.sessions
        ≡ proven_stream_permits
    pub public_sessions :
        available n.pools.sessions + sum_by session_bit n.sessions ≡ public_session_permits
    pub few : length n.sessions ≤ max_sessions
    pub sound : All IsSound n.sessions

  drop_pipes_returns :
      (pipes : List Pipe) (pools : Pools semaphores) (p : Permit)
      → free semaphores (drop_pipes gates semaphores pipes pools) p
        ≡ free semaphores pools p + sum_by (pipe_holds p) pipes
  drop_pipes_returns [] pools p = omega arith
  drop_pipes_returns (pipe ∷ pipes) pools p = omega (
    arith,
    drop_pipes_returns pipes (give_back semaphores (permit pipe) pools) p,
    free-give_back semaphores (permit pipe) pools p,
  )

  drop_pipes_sessions :
      (pipes : List Pipe) (pools : Pools semaphores)
      → (drop_pipes gates semaphores pipes pools).sessions ≡ pools.sessions
  drop_pipes_sessions [] pools = refl
  drop_pipes_sessions (pipe ∷ pipes) pools =
      drop_pipes_sessions pipes (give_back semaphores (permit pipe) pools)
      ∙ sessions-give_back semaphores (permit pipe) pools

  within-Accounted :
      {s t : Served gates semaphores} (before after : List Session)
      → Step gates semaphores s t
      → Accounted (record { pools = s.pools; sessions = before ++ s.session ∷ after })
      → Accounted (record { pools = t.pools; sessions = before ++ t.session ∷ after })
  within-Accounted {s} {t} before after step a =
      let k = Step-Kept gates semaphores step in
      let (mine, others) = All-middle IsSound before (s.session) after a.sound in
      record {
        public_streams = omega (
          arith,
          a.public_streams,
          k.streams public_stream,
          sum_by_middle (session_holds public_stream) before (s.session) after,
          sum_by_middle (session_holds public_stream) before (t.session) after,
        );
        proven_streams = omega (
          arith,
          a.proven_streams,
          k.streams proven_stream,
          sum_by_middle (session_holds proven_stream) before (s.session) after,
          sum_by_middle (session_holds proven_stream) before (t.session) after,
        );
        public_sessions = omega (
          arith,
          a.public_sessions,
          k.sessions,
          sum_by_middle session_bit before (s.session) after,
          sum_by_middle session_bit before (t.session) after,
        );
        few = omega (
          arith,
          a.few,
          length_middle before (s.session) after,
          length_middle before (t.session) after,
        );
        sound =
            All-insert IsSound before (t.session) after (Step-IsSound gates semaphores step mine)
              others;
      }

  NodeStep-Accounted :
      {a b : Node gates semaphores} → NodeStep gates semaphores a b → Accounted a → Accounted b
  NodeStep-Accounted (connects room) acc = record {
    public_streams = omega (arith, acc.public_streams);
    proven_streams = omega (arith, acc.proven_streams);
    public_sessions = omega (arith, acc.public_sessions);
    few = omega (arith, room);
    sound = (record { few = omega arith; classified = λ h. absurd (omega (arith, h)) }, acc.sound);
  }
  NodeStep-Accounted (within before after step) acc = within-Accounted before after step acc
  NodeStep-Accounted (closes {pools} before after s why) acc = record {
    public_streams = omega (
      arith,
      acc.public_streams,
      free-leave semaphores s.held (drop_pipes gates semaphores s.pipes pools) public_stream,
      drop_pipes_returns s.pipes pools public_stream,
      sum_by_middle (session_holds public_stream) before s after,
    );
    proven_streams = omega (
      arith,
      acc.proven_streams,
      free-leave semaphores s.held (drop_pipes gates semaphores s.pipes pools) proven_stream,
      drop_pipes_returns s.pipes pools proven_stream,
      sum_by_middle (session_holds proven_stream) before s after,
    );
    public_sessions = omega (
      arith,
      acc.public_sessions,
      leave_returns semaphores s.held (drop_pipes gates semaphores s.pipes pools),
      ap available (drop_pipes_sessions s.pipes pools),
      sum_by_middle session_bit before s after,
    );
    few = omega (arith, acc.few, length_middle before s after);
    sound = (All-middle IsSound before s after acc.sound).1;
  }

  -- Wherever the steps of a node lead, each permit is free or held by one stream or session in flight:
  -- 4 for public streams, 8 for proven-only streams, 32 for public sessions. No session has more than
  -- 256 streams, no node more than 256 sessions, and a session with a public stream holds its permit.
  pub Reach-Accounted : {n : Node gates semaphores} → Reach gates semaphores n → Accounted n
  unfolding new_pools
  Reach-Accounted start = record {
    public_streams = omega (arith, semaphores.starts public_stream_permits);
    proven_streams = omega (arith, semaphores.starts proven_stream_permits);
    public_sessions = omega (arith, semaphores.starts public_session_permits);
    few = omega arith;
    sound = tt;
  }
  Reach-Accounted (later r step) = NodeStep-Accounted step (Reach-Accounted r)
