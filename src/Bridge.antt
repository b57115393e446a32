-- ===== src/Bridge.antt =====
-- src/lib.rs: the bridge of a service to this process's stdio. `stdin_chunks` is one thread and a channel
-- of one chunk, and `pipe_stdio_bridge` a row of turns over them; one bridge at a time holds the channel.
-- `io::copy` is a Copy of Pump. What may fail, and when a bridge is dropped, is the turns'.
pub mod Bounded
pub mod Chunks
pub mod Drained
use tightbeam.Base.{
  ℕ, ◌*◌, ◌^◌, min, Bool, true, false, Option, none, some, List, [], ◌∷◌, ◌++◌, take, drop,
  if◌then◌else◌,
}
use tightbeam.Pump.{Copy, copy_from, Move, moved, is_copied}

-- The thread's buffer.
abbrev pub chunk_size : ℕ
chunk_size = 16 * 2 ^ 10

pub data Chunk : Type 0 where
  chunk : List ℕ → Chunk
  unreadable : Chunk

-- `hand` is what the thread has read and waits to send, `slot` the one chunk of the channel, which
-- closes as the thread returns.
pub record Input : Type 0 where
  pub unread : List ℕ
  pub hand : Option Chunk
  pub slot : Option Chunk
  pub alive : Bool

pub data ThreadTurn : Type 0 where
  reads : ℕ → ThreadTurn
  interrupted read_fails sends : ThreadTurn

-- `Ok(0)` of a read is the end of the input.
abbrev pub read_chunk : List ℕ → List ℕ → Input → Input
read_chunk [] [] i = record i { alive = false }
read_chunk [] (x ∷ xs) i = i
read_chunk (b ∷ bs) rest i = record i { unread = rest; hand = some (chunk (b ∷ bs)) }

-- A thread that holds a chunk is parked in its send, and one that has returned does nothing.
abbrev pub when_reading : Input → Option Chunk → Input → Input
when_reading i none next = if i.alive then next else i
when_reading i (some held) next = i

abbrev pub sent_on : Option Chunk → Option Chunk → Input → Input
sent_on none slot i = i
sent_on (some held) (some full) i = i
sent_on (some (chunk bs)) none i = record i { hand = none; slot = some (chunk bs) }
sent_on (some unreadable) none i = record i { hand = none; slot = some unreadable; alive = false }

unfoldable pub thread_turn : ThreadTurn → Input → Input
thread_turn (reads n) i =
    when_reading i i.hand
      (read_chunk (take (min n chunk_size) i.unread) (drop (min n chunk_size) i.unread) i)
thread_turn interrupted i = i
thread_turn read_fails i = when_reading i i.hand (record i { hand = some unreadable })
thread_turn sends i = sent_on i.hand i.slot i

-- The pump toward the peer: it waits for a chunk, writes one, or shuts its writer down.
pub data Up : Type 0 where
  waiting shutting over : Up
  writing : List ℕ → Up

-- The pump toward stdout: the copy, then the flush.
pub data Out : Type 0 where
  copying flushing : Copy → Out

-- `reader` is the stream that the bridge was given, `sent` what its peer's writer has taken, `first` the
-- copy that `select!` raced, and `second` the one of the arm that drains what the peer still says.
pub record Bridge : Type 0 where
  pub reader : List ℕ
  pub sent : List ℕ
  pub up : Up
  pub first : Out
  pub second : Option Out
  pub result : Option Bool

pub data BridgeTurn : Type 0 where
  receives : BridgeTurn
  peer_takes : ℕ → BridgeTurn
  half_closes peer_fails : BridgeTurn
  moves : Move → BridgeTurn
  copied flushed out_fails : BridgeTurn

abbrev pub bridge_over : List ℕ → Bridge
bridge_over bytes = record {
  reader = bytes;
  sent = [];
  up = waiting;
  first = copying (copy_from bytes);
  second = none;
  result = none;
}

-- `input.recv().await` and the `?` of a chunk.
abbrev pub received : Option Chunk → Input → Bridge → Input × Bridge
received none i b = (i, if i.alive then b else record b { up = shutting })
received (some (chunk bs)) i b = (record i { slot = none }, record b { up = writing bs })
received (some unreadable) i b = (record i { slot = none }, record b { result = some false })

abbrev pub still_writing : List ℕ → Up
still_writing [] = waiting
still_writing (x ∷ xs) = writing (x ∷ xs)

abbrev pub copy_of : Out → Copy
copy_of (copying c) = c
copy_of (flushing c) = c

-- The second copy goes on with the reader that the first one left.
abbrev pub half_closed : Bridge → Bridge
half_closed b = record b {
  up = over;
  second = some (copying (copy_from ((copy_of b.first).unread)));
}

abbrev pub up_turn : BridgeTurn → Up → Input → Bridge → Input × Bridge
up_turn receives waiting i b = received i.slot i b
up_turn (peer_takes n) (writing bs) i b =
    (i, record b { sent = b.sent ++ take n bs; up = still_writing (drop n bs) })
up_turn half_closes shutting i b = (i, half_closed b)
up_turn peer_fails (writing bs) i b = (i, record b { result = some false })
up_turn peer_fails shutting i b = (i, record b { result = some false })
up_turn t u i b = (i, b)

abbrev pub out_turn : BridgeTurn → Out → Out
out_turn (moves m) (copying c) = copying (moved m c)
out_turn copied (copying c) = if is_copied c then flushing c else copying c
out_turn t o = o

abbrev pub flushed_result : Out → Option Bool
flushed_result (flushing c) = some true
flushed_result (copying c) = none

-- The arm of the downstream, or what follows the arm of the upstream, ends the bridge.
abbrev pub out_of : BridgeTurn → Option Out → Bridge → Bridge
out_of flushed none b = record b { result = flushed_result b.first }
out_of flushed (some out) b = record b { result = flushed_result out }
out_of out_fails second b = record b { result = some false }
out_of t none b = record b { first = out_turn t b.first }
out_of t (some out) b = record b { second = some (out_turn t out) }

abbrev pub is_upstream : BridgeTurn → Bool
is_upstream receives = true
is_upstream (peer_takes n) = true
is_upstream half_closes = true
is_upstream peer_fails = true
is_upstream t = false

abbrev pub while_running : Option Bool → BridgeTurn → Input → Bridge → Input × Bridge
while_running (some result) t i b = (i, b)
while_running none t i b = if is_upstream t then up_turn t b.up i b else (i, out_of t b.second b)

unfoldable pub bridge_turn : BridgeTurn → Input → Bridge → Input × Bridge
bridge_turn t i b = while_running b.result t i b

-- The process: its stdin, the bridges that are gone, and the one that holds the channel.
pub record Stdio : Type 0 where
  pub input : Input
  pub past : List Bridge
  pub current : Option Bridge

pub data Turn : Type 0 where
  thread : ThreadTurn → Turn
  pumps : BridgeTurn → Turn
  starts : List ℕ → Turn
  -- The bridge has returned, or its future is dropped.
  leaves : Turn

abbrev pub started : List ℕ → Option Bridge → Stdio → Stdio
started bytes none s = record s { current = some (bridge_over bytes) }
started bytes (some b) s = s

abbrev pub pumped : BridgeTurn → Option Bridge → Stdio → Stdio
pumped t none s = s
pumped t (some b) s = record s {
  input = (bridge_turn t s.input b).0;
  current = some (bridge_turn t s.input b).1;
}

abbrev pub left_by : Option Bridge → Stdio → Stdio
left_by none s = s
left_by (some b) s = record s { past = s.past ++ b ∷ []; current = none }

abbrev pub turn : Turn → Stdio → Stdio
turn (thread t) s = record s { input = thread_turn t s.input }
turn (pumps t) s = pumped t s.current s
turn (starts bytes) s = started bytes s.current s
turn leaves s = left_by s.current s

-- The thread has been started over what stdin gives.
abbrev pub stdin_chunks : List ℕ → Stdio
stdin_chunks bytes = record {
  input = record { unread = bytes; hand = none; slot = none; alive = true };
  past = [];
  current = none;
}

unfoldable pub run : List Turn → Stdio → Stdio
run [] s = s
run (t ∷ ts) s = run ts (turn t s)
