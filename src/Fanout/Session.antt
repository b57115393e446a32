-- ===== src/Fanout/Session.antt =====
-- A session as its critical sections interleave: consumers attach, read and leave while the pump
-- runs. The world keeps the cursors that were handed out and not dropped, and the whole feed.
use tightbeam.Base.{
  ℕ, ◌+◌, ◌≤◌, ◌≡◌, Bool, true, false, Option, none, some, List, [], ◌∷◌, ◌++◌, length, All,
  is_some, ◌||◌,
}
use tightbeam.Fanout.{
  Cursor, Shared, Pump, idle, closing, ended, checking, reading, leaving, Read, got, failed,
  Lifetime, new, open_cursor, drop_cursor, pump_step, look,
}
use tightbeam.Fanout.Window.{window}

pub record World (Source : Type 0) : Type 0 where
  pub shared : Shared Source
  pub cursors : List Cursor
  pub feed : List ℕ
  pub over : Bool

module _ {Source : Type 0} where
  -- What the pump's next action adds to the feed.
  abbrev pub fed : Pump Source → Read → List ℕ
  fed (reading source) (got bytes) = bytes
  fed pump read = []

  -- Whether it found the input's end, or a failure.
  abbrev pub finds_end : Pump Source → Read → Bool
  finds_end (reading source) (got []) = true
  finds_end (reading source) failed = true
  finds_end pump read = false

  abbrev pub begin : Source → Lifetime → World Source
  begin source lifetime = record {
    shared = new source lifetime;
    cursors = [];
    feed = [];
    over = false;
  }

  pub data Step : World Source → World Source → Type 0 where
    attaches :
        (w : World Source) (c : Cursor) (after : Shared Source)
        → open_cursor w.shared ≡ (some c, after)
        → Step w (record { shared = after; cursors = c ∷ w.cursors; feed = w.feed; over = w.over })
    pumps :
        (w : World Source) (read : Read)
        → Step w (record {
          shared = pump_step read w.shared;
          cursors = w.cursors;
          feed = w.feed ++ fed w.shared.pump read;
          over = w.over || finds_end w.shared.pump read;
        })
    reads :
        (w : World Source) (before behind : List Cursor) (c : Cursor) (remaining : ℕ)
        → w.cursors ≡ before ++ c ∷ behind
        → Step w (record {
          shared = w.shared;
          cursors = before ++ (look w.shared.ring remaining c).1 ∷ behind;
          feed = w.feed;
          over = w.over;
        })
    leaves :
        (w : World Source) (before behind : List Cursor) (c : Cursor)
        → w.cursors ≡ before ++ c ∷ behind
        → Step w (record {
          shared = drop_cursor w.shared;
          cursors = before ++ behind;
          feed = w.feed;
          over = w.over;
        })

  pub data Steps : World Source → World Source → Type 0 where
    here : (w : World Source) → Steps w w
    then_step : {a b c : World Source} → Steps a b → Step b c → Steps a c

  abbrev pub is_idle : Pump Source → Bool
  is_idle idle = true
  is_idle pump = false

  abbrev pub is_ended : Pump Source → Bool
  is_ended ended = true
  is_ended pump = false

  -- The loop was left.
  abbrev pub is_past : Pump Source → Bool
  is_past (leaving source) = true
  is_past closing = true
  is_past ended = true
  is_past pump = false

  -- How many readers of the source exist: the one still armed, and the pump's.
  abbrev pub armed : Option Source → ℕ
  armed none = 0
  armed (some source) = 1

  abbrev pub pumped : Pump Source → ℕ
  pumped (checking source) = 1
  pumped (reading source) = 1
  pumped (leaving source) = 1
  pumped pump = 0

  abbrev pub readers : Shared Source → ℕ
  readers shared = armed shared.life.source + pumped shared.pump

  -- Where the one reader is, whether the ring is closed, and what ended the loop.
  pub record IsInPhase (shared : Shared Source) : Type 0 where
    pub waits : is_some shared.life.source ≡ is_idle shared.pump
    pub shuts : shared.ring.closed ≡ is_ended shared.pump

  pub record IsSound (w : World Source) : Type 0 where
    pub windowed : w.shared.ring ≡ window w.feed w.shared.ring.closed
    pub counted : w.shared.life.consumers ≡ length w.cursors
    pub placed : All (λ c. c.pos ≤ length w.feed) w.cursors
    pub phase : IsInPhase w.shared
