-- ===== src/Fanout/Soundness.antt =====
-- Every critical section keeps a session sound.
use tightbeam.Base.{
  ℕ, ◌-◌, ◌≤◌, ◌≡◌, refl, sym, ap, subst, ◌∙◌, true, false, Option, none, some, List, [], ◌∷◌, ◌++◌,
  length, All, All-append, All-split, arith, length-append, append-nil, length-drop, Bool-cases,
  inl, inr, is_some, Option-cases, ◌||◌,
}
use tightbeam.Fanout.{
  Ring, Cursor, Shared, Pump, idle, closing, ended, checking, reading, leaving, Read, got, failed,
  Lifetime, Life, open_cursor, drop_cursor, pump_step, look, append, released, close, attach, head,
  ring_bytes,
}
use tightbeam.Fanout.Window.{window, append-window}
use tightbeam.Fanout.Reading.{look-inside}
use tightbeam.Fanout.Session.{
  World, Step, Steps, attaches, pumps, reads, leaves, here, then_step, begin, fed, is_idle,
  is_ended, finds_end, IsInPhase, IsSound,
}

-- What the pump's action keeps, and what it does to the ring.
record Pumped {Source : Type 0} (feed : List ℕ) (read : Read) (s after : Shared Source)
    : Type 0 where
  windowed : after.ring ≡ window (feed ++ fed s.pump read) after.ring.closed
  counted : after.life ≡ s.life
  phase : IsInPhase after

still :
    (feed : List ℕ) (ring : Ring)
    → ring ≡ window feed ring.closed
    → ring ≡ window (feed ++ []) ring.closed
still feed ring w = rw (append-nil feed) w

placed_later :
    (cursors : List Cursor) (feed more : List ℕ)
    → All (λ c. c.pos ≤ length feed) cursors
    → All (λ c. c.pos ≤ length (feed ++ more)) cursors
placed_later [] feed more h = tt
placed_later (c ∷ cs) feed more h =
    (omega (arith, h.0, length-append feed more), placed_later cs feed more h.1)

module _ {Source : Type 0} where
  module _ (feed : List ℕ) (ring : Ring) (w : ring ≡ window feed ring.closed) where
    pump_step-Pumped :
        (read : Read) (life : Life Source) (pump : Pump Source)
        → IsInPhase (record { ring = ring; life = life; pump = pump })
        → Pumped feed read
            (record { ring = ring; life = life; pump = pump })
            (pump_step read (record { ring = ring; life = life; pump = pump }))
    unfolding pump_step
    pump_step-Pumped read life idle h = record {
      windowed = still feed ring w;
      counted = refl;
      phase = h;
    }
    pump_step-Pumped read life ended h = record {
      windowed = still feed ring w;
      counted = refl;
      phase = h;
    }
    pump_step-Pumped read life (leaving s) h = record {
      windowed = still feed ring w;
      counted = refl;
      phase = record { waits = h.waits; shuts = h.shuts };
    }
    pump_step-Pumped read life closing h = record {
      windowed = ap close (still feed ring w);
      counted = refl;
      phase = record { waits = h.waits; shuts = refl };
    }
    pump_step-Pumped read life (checking s) h = elim (Bool-cases (released life)) [
      | inl free ↦ rw (free) (record {
        windowed = still feed ring w;
        counted = refl;
        phase = record { waits = h.waits; shuts = h.shuts };
      })
      | inr kept ↦ rw (kept) (record {
        windowed = still feed ring w;
        counted = refl;
        phase = record { waits = h.waits; shuts = h.shuts };
      })
    ]
    pump_step-Pumped failed life (reading s) h = record {
      windowed = still feed ring w;
      counted = refl;
      phase = record { waits = h.waits; shuts = h.shuts };
    }
    pump_step-Pumped (got []) life (reading s) h = record {
      windowed = still feed ring w;
      counted = refl;
      phase = record { waits = h.waits; shuts = h.shuts };
    }
    pump_step-Pumped (got (b ∷ bs)) life (reading s) h = record {
      windowed = ap (append (b ∷ bs)) w ∙ append-window feed (b ∷ bs) ring.closed;
      counted = refl;
      phase = record { waits = h.waits; shuts = h.shuts };
    }

  runs_while_idle : (pump : Pump Source) → is_idle pump ≡ true → is_ended pump ≡ false
  runs_while_idle idle h = refl
  runs_while_idle (checking s) h = refl
  runs_while_idle (reading s) h = refl
  runs_while_idle (leaving s) h = refl
  runs_while_idle closing h = refl
  runs_while_idle ended h = absurd cc

  -- A session after an attempt to attach.
  Attached : World Source → Option Cursor × Shared Source → Type 0
  Attached w (none, after) = Unit
  Attached w (some c, after) =
      IsSound (record { shared = after; cursors = c ∷ w.cursors; feed = w.feed; over = w.over })

  attach-Attached :
      (w : World Source) (pump : Pump Source)
      → IsSound w
      → false ≡ is_idle pump
      → w.shared.ring.closed ≡ is_ended pump
      → Attached w (attach pump w.shared)
  unfolding Attached
  attach-Attached w pump h waits shuts = record {
    windowed = h.windowed;
    counted = omega (arith, h.counted);
    placed = (
      subst (λ r. head r ≤ length w.feed) (sym h.windowed)
          (omega (arith, length-drop (length w.feed - ring_bytes) w.feed)),
      h.placed,
    );
    phase = record { waits = waits; shuts = shuts };
  }

  open_cursor-Attached : (w : World Source) → IsSound w → Attached w (open_cursor w.shared)
  unfolding open_cursor Attached
  open_cursor-Attached w h = elim (Option-cases w.shared.life.source) [
    | inl gone ↦ elim (Bool-cases w.shared.ring.closed) [
      | inl shut ↦ rw (gone, shut) tt
      | inr runs ↦
          let e : open_cursor w.shared ≡ attach w.shared.pump w.shared = rw (gone, runs) refl in
          subst (Attached w) (sym e) (
            attach-Attached w w.shared.pump h (ap is_some (sym gone) ∙ h.phase.waits) h.phase.shuts)
    ]
    | inr (source, held) ↦
        let e : open_cursor w.shared ≡ attach (checking source) w.shared = rw (held) refl in
        let waits : is_idle w.shared.pump ≡ true = sym h.phase.waits ∙ ap is_some held in
        subst (Attached w) (sym e) (
          attach-Attached w (checking source) h refl
            (h.phase.shuts ∙ runs_while_idle w.shared.pump waits))
  ]

  attaches-IsSound :
      (w : World Source) (c : Cursor) (after : Shared Source)
      → open_cursor w.shared ≡ (some c, after)
      → IsSound w
      → IsSound (record { shared = after; cursors = c ∷ w.cursors; feed = w.feed; over = w.over })
  unfolding Attached
  attaches-IsSound w c after e h = subst (Attached w) e (open_cursor-Attached w h)

  pumps-IsSound :
      (w : World Source) (read : Read)
      → IsSound w
      → IsSound (record {
        shared = pump_step read w.shared;
        cursors = w.cursors;
        feed = w.feed ++ fed w.shared.pump read;
        over = w.over || finds_end w.shared.pump read;
      })
  pumps-IsSound w read h =
      let p =
        pump_step-Pumped w.feed w.shared.ring h.windowed read w.shared.life w.shared.pump h.phase in
      record {
        windowed = p.windowed;
        counted = ap (λ l. l.consumers) p.counted ∙ h.counted;
        placed = placed_later w.cursors w.feed (fed w.shared.pump read) h.placed;
        phase = p.phase;
      }

  reads-IsSound :
      (w : World Source) (before behind : List Cursor) (c : Cursor) (remaining : ℕ)
      → w.cursors ≡ before ++ c ∷ behind
      → IsSound w
      → IsSound (record {
        shared = w.shared;
        cursors = before ++ (look w.shared.ring remaining c).1 ∷ behind;
        feed = w.feed;
        over = w.over;
      })
  reads-IsSound w before behind c remaining e h =
      let (front, placed, back) =
        All-split (λ k. k.pos ≤ length w.feed) before c behind (subst (All _) e h.placed) in
      record {
        windowed = h.windowed;
        counted = omega (
          arith,
          h.counted,
          ap length e,
          length-append before (c ∷ behind),
          length-append before ((look w.shared.ring remaining c).1 ∷ behind),
        );
        placed =
            All-append (λ k. k.pos ≤ length w.feed) before _
              (
                subst (λ r. (look r remaining c).1.pos ≤ length w.feed) (sym h.windowed)
                    (look-inside w.feed w.shared.ring.closed remaining c placed).1,
                back,
              )
              front;
        phase = h.phase;
      }

  leaves-IsSound :
      (w : World Source) (before behind : List Cursor) (c : Cursor)
      → w.cursors ≡ before ++ c ∷ behind
      → IsSound w
      → IsSound (record {
        shared = drop_cursor w.shared;
        cursors = before ++ behind;
        feed = w.feed;
        over = w.over;
      })
  unfolding drop_cursor
  leaves-IsSound w before behind c e h =
      let (front, placed, back) =
        All-split (λ k. k.pos ≤ length w.feed) before c behind (subst (All _) e h.placed) in
      record {
        windowed = h.windowed;
        counted = omega (
          arith,
          h.counted,
          ap length e,
          length-append before (c ∷ behind),
          length-append before behind,
        );
        placed = All-append (λ k. k.pos ≤ length w.feed) before behind back front;
        phase = record { waits = h.phase.waits; shuts = h.phase.shuts };
      }

  Step-IsSound : {a b : World Source} → Step a b → IsSound a → IsSound b
  Step-IsSound (attaches w c after e) h = attaches-IsSound w c after e h
  Step-IsSound (pumps w read) h = pumps-IsSound w read h
  Step-IsSound (reads w before behind c remaining e) h =
      reads-IsSound w before behind c remaining e h
  Step-IsSound (leaves w before behind c e) h = leaves-IsSound w before behind c e h

  later-IsSound : {a b : World Source} → Steps a b → IsSound a → IsSound b
  later-IsSound (here w) h = h
  later-IsSound (then_step s t) h = Step-IsSound t (later-IsSound s h)

  begin-IsSound : (source : Source) (lifetime : Lifetime) → IsSound (begin source lifetime)
  begin-IsSound source lifetime = record {
    windowed = refl;
    counted = refl;
    placed = tt;
    phase = record { waits = refl; shuts = refl };
  }

  -- However attaching, reading, leaving and the pump's actions interleave: the ring is the window of
  -- the whole feed, the consumer count is the number of cursors, no cursor stands past the feed, the
  -- source is armed exactly until the pump starts, and the ring is closed exactly when it has ended.
  pub Steps-IsSound :
      (source : Source) (lifetime : Lifetime) (w : World Source)
      → Steps (begin source lifetime) w
      → IsSound w
  Steps-IsSound source lifetime w s = later-IsSound s (begin-IsSound source lifetime)
