-- ===== src/Seat/Meter.antt =====
-- src/raw_stream/seat.rs: the holder's stall gauge. Instants are nanoseconds. A window's count of
-- bytes does not wrap: it restarts long before.
use tightbeam.Base.{
  ℕ, ◌+◌, ◌-◌, ◌*◌, ◌/◌, ◌^◌, Bool, true, false, Option, none, some, ltb, leb, if◌then◌else◌,
}

abbrev pub second : ℕ
second = 10 ^ 9

abbrev pub stall_window : ℕ
stall_window = 90 * second

abbrev pub stall_min_bytes : ℕ
stall_min_bytes = 128 * 1024

abbrev pub stall_clear : ℕ
stall_clear = second

abbrev pub stock_credit_step : ℕ
stock_credit_step = 1250000 / 8

pub data Writer : Type 0 where
  unrefused refused : Writer
  clear_since : ℕ → Writer

pub record Window : Type 0 where
  pub opened : ℕ
  pub taken : ℕ

pub record Gauge : Type 0 where
  pub writer : Writer
  pub window : Option Window

-- The default.
abbrev pub fresh : Gauge
fresh = record { writer = unrefused; window = none }

-- One `poll_write`'s outcome.
pub data Write : Type 0 where
  pending failed : Write
  took : ℕ → Write

abbrev pub open_by : ℕ → Writer → Bool
open_by now unrefused = false
open_by now refused = true
open_by now (clear_since clear) = ltb (now - clear) stall_clear

unfoldable pub is_open : ℕ → Gauge → Bool
is_open now gauge = elim gauge.window [ none ↦ false | some window ↦ open_by now gauge.writer ]

unfoldable pub grown : ℕ → ℕ → Window → Window
grown now taken window =
    if leb stall_min_bytes (window.taken + taken)
    then record { opened = now; taken = 0 }
    else record { opened = window.opened; taken = window.taken + taken }

abbrev pub map_window : (Window → Window) → Option Window → Option Window
map_window f none = none
map_window f (some window) = some (f window)

-- A refused write while the writer was not already waiting.
abbrev pub refuse : ℕ → Gauge → Gauge
refuse now gauge = record {
  writer = refused;
  window = if is_open now gauge then gauge.window else some (record { opened = now; taken = 0 });
}

abbrev pub on_pending : ℕ → Gauge → Writer → Gauge
on_pending now gauge refused = gauge
on_pending now gauge unrefused = refuse now gauge
on_pending now gauge (clear_since t) = refuse now gauge

abbrev pub taken_by : ℕ → Writer → Writer
taken_by now refused = clear_since now
taken_by now unrefused = unrefused
taken_by now (clear_since t) = clear_since t

-- `Meter::record`
unfoldable pub record_write : Write → ℕ → Gauge → Gauge
unfolding is_open grown
record_write pending now gauge = on_pending now gauge gauge.writer
record_write failed now gauge = gauge
record_write (took n) now gauge = record {
  writer = taken_by now gauge.writer;
  window = map_window (grown now n) gauge.window;
}

abbrev pub stayed : ℕ → Option Window → Bool
stayed now none = false
stayed now (some window) = leb stall_window (now - window.opened)

unfoldable pub preemptible : ℕ → Gauge → Bool
unfolding is_open
preemptible now gauge = if is_open now gauge then stayed now gauge.window else false
