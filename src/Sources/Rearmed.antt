-- ===== src/Sources/Rearmed.antt =====
-- A lossy source stays armed.
use tightbeam.Base.{ℕ, suc, ◌≡◌, refl, Option, none, some}
use tightbeam.Base.Bytes.{Text}
use tightbeam.Fanout.{Shared, Cursor, open_cursor}
use tightbeam.Sources.{
  Opener, of_fifo, ready, LossyState, lossy, Attempt, opened, refused, cancelled, Answer, reading,
  unopened, not_armed, session_ended, abandoned, looping, attach_to, open_lossy,
}

module _ {Source : Type 0} where
  -- Idle or in a session, over a FIFO or over what cannot be opened twice.
  pub data Armed : LossyState Source → Type 0 where
    idle_fifo :
        (path : Text)
        → Armed (record { opener = some (of_fifo path); fifo = some path; fanout = none })
    live_fifo :
        (path : Text) (fanout : Shared Source)
        → Armed (record { opener = none; fifo = some path; fanout = some fanout })
    idle_once :
        (source : Source)
        → Armed (record { opener = some (ready source); fifo = none; fanout = none })
    live_once :
        (fanout : Shared Source)
        → Armed (record { opener = none; fifo = none; fanout = some fanout })

  lossy-Armed : (opener : Opener Source) → Armed (lossy opener)
  unfolding lossy
  lossy-Armed (of_fifo path) = idle_fifo path
  lossy-Armed (ready source) = idle_once source

  -- What a call of `open` may say of a source, by what it can be armed with again.
  abbrev pub Says : Option Text → Attempt Source → Answer → Type 0
  Says fifo attempt (reading c) = Unit {0}
  Says fifo attempt (unopened why) = attempt ≡ refused why
  Says fifo attempt abandoned = attempt ≡ cancelled
  Says fifo attempt session_ended = fifo ≡ none
  Says fifo attempt not_armed = ⊥
  Says fifo attempt looping = ⊥

  pub record Opened (before : LossyState Source) (attempt : Attempt Source)
      (r : LossyState Source × Answer) : Type 0 where
    pub armed : Armed r.0
    pub same : r.0.fifo ≡ before.fifo
    pub says : Says before.fifo attempt r.1

  idle_turn :
      (turns : ℕ) (path : Text) (attempt : Attempt Source)
      → Opened
          (record { opener = some (of_fifo path); fifo = some path; fanout = none })
          attempt
          (open_lossy
            (suc turns)
            attempt
            (record { opener = some (of_fifo path); fifo = some path; fanout = none }))
  unfolding open_lossy open_cursor
  idle_turn turns path (opened source) = record { armed = live_fifo path _; same = refl; says = tt }
  idle_turn turns path (refused why) = record { armed = idle_fifo path; same = refl; says = refl }
  idle_turn turns path cancelled = record { armed = idle_fifo path; same = refl; says = refl }

  -- An ended session of a FIFO gives way to a new one.
  attach_fifo :
      (path : Text) (fanout : Shared Source) (attempt : Attempt Source)
      (r : Option Cursor × Shared Source) (again : LossyState Source → LossyState Source × Answer)
      → Opened
          (record { opener = some (of_fifo path); fifo = some path; fanout = none })
          attempt
          (again (record { opener = some (of_fifo path); fifo = some path; fanout = none }))
      → Opened
          (record { opener = none; fifo = some path; fanout = some fanout })
          attempt
          (attach_to (record { opener = none; fifo = some path; fanout = some fanout }) r again)
  attach_fifo path fanout attempt (some c, after) again h = record {
    armed = live_fifo path after;
    same = refl;
    says = tt;
  }
  attach_fifo path fanout attempt (none, after) again h = record {
    armed = h.armed;
    same = h.same;
    says = h.says;
  }

  attach_once :
      (fanout : Shared Source) (attempt : Attempt Source) (r : Option Cursor × Shared Source)
      (again : LossyState Source → LossyState Source × Answer)
      → Opened
          (record { opener = none; fifo = none; fanout = some fanout })
          attempt
          (attach_to (record { opener = none; fifo = none; fanout = some fanout }) r again)
  attach_once fanout attempt (some c, after) again = record {
    armed = live_once after;
    same = refl;
    says = tt;
  }
  attach_once fanout attempt (none, after) again = record {
    armed = live_once after;
    same = refl;
    says = refl;
  }

  -- Two turns of the loop are enough. Whatever is open, a call ends with a reader, the error of the open,
  -- the caller gone, or, for what cannot be opened twice, the end of its session. It leaves the source
  -- armed: a FIFO whose open failed, or was given up, is opened by the next call.
  pub open_lossy-Opened :
      (turns : ℕ) (attempt : Attempt Source) (state : LossyState Source)
      → Armed state
      → Opened state attempt (open_lossy (suc (suc turns)) attempt state)
  unfolding open_lossy open_cursor
  open_lossy-Opened turns attempt _ (idle_fifo path) = idle_turn (suc turns) path attempt
  open_lossy-Opened turns attempt _ (live_fifo path fanout) =
      attach_fifo path fanout attempt (open_cursor fanout)
        (λ next. open_lossy (suc turns) attempt next) (idle_turn turns path attempt)
  open_lossy-Opened turns attempt _ (idle_once source) = record {
    armed = live_once _;
    same = refl;
    says = tt;
  }
  open_lossy-Opened turns attempt _ (live_once fanout) =
      attach_once fanout attempt (open_cursor fanout) (λ next. open_lossy (suc turns) attempt next)
