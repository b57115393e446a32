-- ===== src/Seat/Stalled.antt =====
-- The gauge against the whole run of a holder's writes, newest first.
use tightbeam.Base.{
  ℕ, ◌+◌, ◌-◌, ◌≤◌, ◌<◌, ◌≡◌, refl, ap, subst, Bool, true, false, Option, none, some, leb, List, [],
  ◌∷◌, ◌++◌, All, arith, Bool-cases, inl, inr, leb→le, leb→lt, le→leb, ◌≢◌, not, ◌||◌, is_some,
}
use tightbeam.Seat.Meter.{
  Gauge, Writer, Window, Write, pending, failed, took, unrefused, refused, clear_since, fresh,
  is_open, grown, record_write, preemptible, stall_window, stall_min_bytes, stayed, refuse,
  map_window, on_pending,
}

pub record Event : Type 0 where
  pub write : Write
  pub time : ℕ

unfoldable pub run : List Event → Gauge
run [] = fresh
run (e ∷ es) = record_write e.write e.time (run es)

abbrev pub amount : Write → ℕ
amount (took n) = n
amount pending = 0
amount failed = 0

abbrev pub accepted : List Event → ℕ
accepted [] = 0
accepted (e ∷ es) = amount e.write + accepted es

-- A moment in the history, and too few bytes taken since.
pub record Since (es : List Event) (window : Window) : Type 0 where
  pub recent : List Event
  pub older : List Event
  pub start : Event
  pub parts : es ≡ recent ++ start ∷ older
  pub begins : start.time ≡ window.opened
  pub counts : accepted recent ≡ window.taken
  pub few : window.taken < stall_min_bytes

Tracks : List Event → Option Window → Type 0
Tracks es none = Unit
Tracks es (some window) = Since es window

Since-later :
    (e : Event) (es : List Event) (w : Window) (n : ℕ)
    → amount e.write ≡ n
    → w.taken + n < stall_min_bytes
    → Since es w
    → Since (e ∷ es) (record { opened = w.opened; taken = w.taken + n })
Since-later e es w n size few s = record {
  recent = e ∷ s.recent;
  older = s.older;
  start = s.start;
  parts = ap (λ l. e ∷ l) s.parts;
  begins = s.begins;
  counts = omega (arith, s.counts);
  few = few;
}

Since-now : (e : Event) (es : List Event) → Since (e ∷ es) (record { opened = e.time; taken = 0 })
Since-now e es = record {
  recent = [];
  older = es;
  start = e;
  parts = refl;
  begins = refl;
  counts = refl;
  few = omega arith;
}

Tracks-idle :
    (e : Event) (es : List Event) (w : Option Window)
    → amount e.write ≡ 0
    → Tracks es w
    → Tracks (e ∷ es) w
unfolding Tracks
Tracks-idle e es none z t = tt
Tracks-idle e es (some w) z t =
    let kept : w.taken + 0 ≡ w.taken = omega arith in
    subst (λ k. Since (e ∷ es) (record { opened = w.opened; taken = k })) kept
      (Since-later e es w 0 z (omega (arith, t.few)) t)

Tracks-refuse :
    (e : Event) (es : List Event) (g : Gauge)
    → amount e.write ≡ 0
    → Tracks es g.window
    → Tracks (e ∷ es) (refuse e.time g).window
unfolding Tracks
Tracks-refuse e es g z t = elim (Bool-cases (is_open e.time g)) [
  | inl open_now ↦ rw (open_now) (Tracks-idle e es g.window z t)
  | inr shut ↦ rw (shut) (Since-now e es)
]

Tracks-grown :
    (n t : ℕ) (es : List Event) (w : Option Window)
    → Tracks es w
    → Tracks (record { write = took n; time = t } ∷ es) (map_window (grown t n) w)
unfolding Tracks grown
Tracks-grown n t es none h = tt
Tracks-grown n t es (some w) h = elim (Bool-cases (leb stall_min_bytes (w.taken + n))) [
  | inl enough ↦ rw (enough) (Since-now (record { write = took n; time = t }) es)
  | inr few ↦ rw (few) (
      Since-later (record { write = took n; time = t }) es w n refl
        (leb→lt stall_min_bytes (w.taken + n) few) h)
]

record_write-Tracks :
    (write : Write) (t : ℕ) (es : List Event) (writer : Writer) (window : Option Window)
    → Tracks es window
    → Tracks
        (record { write = write; time = t } ∷ es)
        (record_write write t (record { writer = writer; window = window })).window
unfolding record_write
record_write-Tracks failed t es writer window h =
    Tracks-idle (record { write = failed; time = t }) es window refl h
record_write-Tracks (took n) t es writer window h = Tracks-grown n t es window h
record_write-Tracks pending t es refused window h =
    Tracks-idle (record { write = pending; time = t }) es window refl h
record_write-Tracks pending t es unrefused window h =
    Tracks-refuse (record { write = pending; time = t }) es
      (record { writer = unrefused; window = window }) refl h
record_write-Tracks pending t es (clear_since c) window h =
    Tracks-refuse (record { write = pending; time = t }) es
      (record { writer = clear_since c; window = window }) refl h

run-Tracks : (es : List Event) → Tracks es (run es).window
unfolding run Tracks
run-Tracks [] = tt
run-Tracks (e ∷ es) =
    record_write-Tracks e.write e.time es (run es).writer (run es).window (run-Tracks es)

-- A moment at least one stall window ago since which fewer than the minimum were taken.
pub record IsStalled (es : List Event) (now : ℕ) : Type 0 where
  pub recent : List Event
  pub older : List Event
  pub start : Event
  pub parts : es ≡ recent ++ start ∷ older
  pub long_ago : start.time + stall_window ≤ now
  pub few : accepted recent < stall_min_bytes

stayed-IsStalled :
    (es : List Event) (now : ℕ) (window : Option Window)
    → Tracks es window
    → stayed now window ≡ true
    → IsStalled es now
unfolding Tracks
stayed-IsStalled es now none h s = absurd cc
stayed-IsStalled es now (some w) h s =
    let long : stall_window ≤ now - w.opened = leb→le stall_window (now - w.opened) s in
    record {
      recent = h.recent;
      older = h.older;
      start = h.start;
      parts = h.parts;
      long_ago = omega (arith, h.begins);
      few = omega (arith, h.counts, h.few);
    }

-- A holder that may be displaced has taken less than the minimum in the whole last stall window.
pub preemptible-IsStalled :
    (es : List Event) (now : ℕ) → preemptible now (run es) ≡ true → IsStalled es now
unfolding preemptible
preemptible-IsStalled es now h = elim (Bool-cases (is_open now (run es))) [
  | inl open_now ↦ stayed-IsStalled es now (run es).window (run-Tracks es) (rw (open_now) at h)
  | inr shut ↦ absurd (cc (rw (shut) at h))
]

is_refused : Writer → Bool
is_refused refused = true
is_refused unrefused = false
is_refused (clear_since t) = false

-- A waiting writer has a window.
Waits : Gauge → Type 0
Waits g = not (is_refused g.writer) || is_some g.window ≡ true

record_write-Waits :
    (write : Write) (t : ℕ) (writer : Writer) (window : Option Window)
    → Waits (record { writer = writer; window = window })
    → Waits (record_write write t (record { writer = writer; window = window }))
unfolding record_write Waits is_refused is_open
record_write-Waits failed t writer window h = h
record_write-Waits (took n) t refused window h = refl
record_write-Waits (took n) t unrefused window h = refl
record_write-Waits (took n) t (clear_since c) window h = refl
record_write-Waits pending t refused window h = h
record_write-Waits pending t unrefused none h = refl
record_write-Waits pending t unrefused (some w) h = refl
record_write-Waits pending t (clear_since c) none h = refl
record_write-Waits pending t (clear_since c) (some w) h = ground arith

run-Waits : (es : List Event) → Waits (run es)
unfolding run Waits is_refused
run-Waits [] = refl
run-Waits (e ∷ es) =
    record_write-Waits e.write e.time (run es).writer (run es).window (run-Waits es)

refuse-preemptible :
    (t now : ℕ) (g : Gauge)
    → is_open t g ≡ false
    → t + stall_window ≤ now
    → preemptible now (refuse t g) ≡ true
unfolding preemptible is_open
refuse-preemptible t now g shut long = rw (shut) (le→leb stall_window (now - t) (omega arith))

on_pending-preemptible :
    (t now : ℕ) (writer : Writer) (window : Option Window)
    → Waits (record { writer = writer; window = window })
    → is_open t (record { writer = writer; window = window }) ≡ false
    → t + stall_window ≤ now
    → preemptible now (on_pending t (record { writer = writer; window = window }) writer) ≡ true
unfolding Waits is_refused is_open
on_pending-preemptible t now refused none h shut long = absurd cc
on_pending-preemptible t now refused (some w) h shut long = absurd cc
on_pending-preemptible t now unrefused window h shut long =
    refuse-preemptible t now (record { writer = unrefused; window = window }) shut long
on_pending-preemptible t now (clear_since c) window h shut long =
    refuse-preemptible t now (record { writer = clear_since c; window = window }) shut long

-- A refusal with no window open makes the holder displaceable one stall window later, while
-- nothing more is written.
pub refused-preemptible :
    (es : List Event) (t now : ℕ)
    → is_open t (run es) ≡ false
    → t + stall_window ≤ now
    → preemptible now (run (record { write = pending; time = t } ∷ es)) ≡ true
unfolding run record_write
refused-preemptible es t now shut long =
    on_pending-preemptible t now (run es).writer (run es).window (run-Waits es) shut long

took-fresh : (write : Write) (t : ℕ) → write ≢ pending → record_write write t fresh ≡ fresh
unfolding record_write
took-fresh pending t h = absurd (h refl)
took-fresh failed t h = refl
took-fresh (took n) t h = refl

run-fresh : (es : List Event) → All (λ e. e.write ≢ pending) es → run es ≡ fresh
unfolding run
run-fresh [] h = refl
run-fresh (e ∷ es) h = rw (run-fresh es h.1) (took-fresh e.write e.time h.0)

-- A writer that never had to wait is never displaced.
idle_kept :
    (es : List Event) (now : ℕ) → All (λ e. e.write ≢ pending) es → preemptible now (run es) ≡ false
unfolding preemptible
idle_kept es now h = rw (run-fresh es h) refl
