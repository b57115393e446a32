-- ===== src/Fanout.antt =====
-- src/raw_stream_fanout.rs: one live source, one ring, many cursors. Each function is one critical
-- section of the code's two mutexes. A source is a parameter, and what a read of it returned is an
-- argument. Absolute offsets do not wrap: a feed stays below 2 ^ 64 bytes. The log lines and the
-- wakers' registration are not modelled.
pub mod Window
pub mod Reading
pub mod Session
pub mod Soundness
pub mod Lasting
pub mod Promises
use tightbeam.Base.{
  ℕ, ◌+◌, ◌-◌, ◌*◌, ◌^◌, ◌≡◌, min, Bool, true, false, ◌&&◌, Option, none, some, List, [], ◌∷◌, ◌++◌,
  length, take, drop, ltb, leb, ◌==◌, if◌then◌else◌,
}

abbrev pub ring_bytes : ℕ
ring_bytes = 2 ^ 20

abbrev pub pump_chunk : ℕ
pump_chunk = 64 * 1024

pub data Lifetime : Type 0 where
  until_eof while_watched : Lifetime

-- `buf` is the deque's logical contents.
pub record Ring : Type 0 where
  pub buf : List ℕ
  pub base : ℕ
  pub closed : Bool

pub record Cursor : Type 0 where
  pub pos : ℕ
  pub lagged : Bool

pub record Life (Source : Type 0) : Type 0 where
  pub source : Option Source
  pub consumers : ℕ
  pub lifetime : Lifetime

abbrev pub empty_ring : Ring
empty_ring = record { buf = []; base = 0; closed = false }

abbrev pub head : Ring → ℕ
head ring = ring.base + length ring.buf

unfoldable pub append : List ℕ → Ring → Ring
append bytes ring =
    let overflow = length ring.buf + length bytes - ring_bytes in
    let from_buffer = min overflow (length ring.buf) in
    let skipped = overflow - from_buffer in
    record {
      buf = drop from_buffer ring.buf ++ drop skipped bytes;
      base = ring.base + from_buffer + skipped;
      closed = ring.closed;
    }

unfoldable pub released : {Source : Type 0} → Life Source → Bool
released life = elim life.lifetime [ until_eof ↦ false | while_watched ↦ life.consumers == 0 ]

-- What a read leaves in `buf`, from the deque's two slices.
unfoldable pub copy_slices : List (List ℕ) → ℕ → ℕ → List ℕ
copy_slices [] start remaining = []
copy_slices (slice ∷ slices) start remaining =
    let skip = copy_slices slices (start - length slice) remaining in
    let took = min remaining (length slice - start) in
    let rest = copy_slices slices 0 (remaining - took) in
    if remaining == 0
    then []
    else if leb (length slice) start
    then skip
    else take took (drop start slice) ++ rest

pub copy_from_deque : List ℕ → List ℕ → ℕ → ℕ → List ℕ
unfolding copy_slices
copy_from_deque front back start n = copy_slices (front ∷ back ∷ []) start n

abbrev pub close : Ring → Ring
close ring = record { buf = ring.buf; base = ring.base; closed = true }

pub data Poll : Type 0 where
  ready : List ℕ → Poll
  pending : Poll

-- The cursor, moved up to the ring's base where it fell behind.
abbrev pub catch_up : Ring → Cursor → Cursor
catch_up ring cursor =
    if ltb cursor.pos ring.base then record { pos = ring.base; lagged = true } else cursor

-- The look's answer for a cursor that is not behind. Nothing ready is `pending`.
pub read_at : Ring → ℕ → Cursor → Poll × Cursor
read_at ring remaining this =
    let start = this.pos - ring.base in
    let n = min (length ring.buf - start) remaining in
    if ltb this.pos (head ring)
    then (
      ready (take n (drop start ring.buf)),
      record {
        pos = this.pos + n;
        lagged = if this.pos + n == head ring then false else this.lagged;
      },
    )
    else (if ring.closed then ready [] else pending, record { pos = this.pos; lagged = false })

-- One look at the ring, with room for `remaining` bytes.
unfoldable pub look : Ring → ℕ → Cursor → Poll × Cursor
unfolding read_at
look ring remaining cursor = read_at ring remaining (catch_up ring cursor)

-- `poll_read`: it looks again while the wake it polled had already fired. Each round is whether it
-- had, and the ring that the round then finds.
unfoldable pub poll_read : List (Bool × Ring) → ℕ → Cursor → Option (Poll × Cursor)
unfolding look
poll_read [] remaining cursor = none
poll_read ((registered, ring) ∷ rounds) remaining cursor =
    let seen = look ring remaining cursor in
    let again = poll_read rounds remaining seen.1 in
    elim seen.0 [ ready bytes ↦ some seen | pending ↦ if registered then again else some seen ]

-- The spawned task, by where it stands and whether it still has the reader.
pub data Pump (Source : Type 0) : Type 0 where
  idle closing ended : Pump Source
  checking reading leaving : Source → Pump Source

pub record Shared (Source : Type 0) : Type 0 where
  pub ring : Ring
  pub life : Life Source
  pub pump : Pump Source

module _ {Source : Type 0} where
  abbrev pub new : Source → Lifetime → Shared Source
  new source lifetime = record {
    ring = empty_ring;
    life = record { source = some source; consumers = 0; lifetime = lifetime };
    pump = idle;
  }

  -- A consumer more, at the live edge.
  abbrev pub attach : Pump Source → Shared Source → Option Cursor × Shared Source
  attach pump shared = (
    some (record { pos = head shared.ring; lagged = false }),
    record {
      ring = shared.ring;
      life = record {
        source = none;
        consumers = shared.life.consumers + 1;
        lifetime = shared.life.lifetime;
      };
      pump = pump;
    },
  )

  unfoldable pub open_cursor : Shared Source → Option Cursor × Shared Source
  open_cursor shared = elim shared.life.source [
    | some source ↦ attach (checking source) shared
    | none ↦ if shared.ring.closed then (none, shared) else attach shared.pump shared
  ]

  -- A cursor's `drop`.
  unfoldable pub drop_cursor : Shared Source → Shared Source
  drop_cursor shared = record {
    ring = shared.ring;
    life = record {
      source = shared.life.source;
      consumers = shared.life.consumers - 1;
      lifetime = shared.life.lifetime;
    };
    pump = shared.pump;
  }

-- What `source.read` returned; no bytes is end of input.
pub data Read : Type 0 where
  got : List ℕ → Read
  failed : Read

module _ {Source : Type 0} where
  abbrev pub with_pump : Pump Source → Shared Source → Shared Source
  with_pump pump shared = record { ring = shared.ring; life = shared.life; pump = pump }

  abbrev pub with_ring : Ring → Shared Source → Shared Source
  with_ring ring shared = record { ring = ring; life = shared.life; pump = shared.pump }

  abbrev pub on_read : Source → Read → Shared Source → Shared Source
  on_read source failed shared = with_pump (leaving source) shared
  on_read source (got []) shared = with_pump (leaving source) shared
  on_read source (got (byte ∷ bytes)) shared =
      with_ring (append (byte ∷ bytes) shared.ring) (with_pump (checking source) shared)

  -- The pump's next action; what a read returned matters only while it reads. Leaving the loop
  -- drops the reader, and only then is the ring marked closed.
  unfoldable pub pump_step : Read → Shared Source → Shared Source
  unfolding append released
  pump_step read shared = elim shared.pump [
    | idle ↦ shared
    | checking source ↦
        if released shared.life
        then with_pump (leaving source) shared
        else with_pump (reading source) shared
    | reading source ↦ on_read source read shared
    | leaving source ↦ with_pump closing shared
    | closing ↦ with_ring (close shared.ring) (with_pump ended shared)
    | ended ↦ shared
  ]
