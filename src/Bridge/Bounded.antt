-- ===== src/Bridge/Bounded.antt =====
-- How much of stdin waits in the process.
use tightbeam.Base.{
  ℕ, ◌+◌, ◌*◌, ◌≤◌, min, ◌≡◌, refl, ap, Bool, true, false, Option, none, some, List, [], ◌∷◌, ◌++◌,
  length, take, drop, if◌then◌else◌, length-take, length-append, arith,
}
use tightbeam.Bridge.{
  chunk_size, Chunk, chunk, unreadable, Input, ThreadTurn, reads, interrupted, read_fails, sends,
  read_chunk, when_reading, sent_on, thread_turn, Up, waiting, shutting, writing, Bridge,
  BridgeTurn, receives, peer_takes, half_closes, peer_fails, received, up_turn, out_of, is_upstream,
  while_running, bridge_turn, Stdio, Turn, thread, pumps, starts, leaves, started, pumped, left_by,
  turn, stdin_chunks, run,
}
use tightbeam.Bridge.Chunks.{chunk_bytes, taken_by, taken_now, run-stdin_chunks}

-- What this process holds of stdin outside a bridge: two chunks at most, each of the thread's buffer.
record IsBounded (i : Input) : Type 0 where
  slot_fits : length (chunk_bytes i.slot) ≤ chunk_size
  hand_fits : length (chunk_bytes i.hand) ≤ chunk_size

read_chunk-IsBounded :
    (got rest : List ℕ) (i : Input)
    → length got ≤ chunk_size
    → IsBounded i
    → IsBounded (read_chunk got rest i)
read_chunk-IsBounded [] [] i h k = record { slot_fits = k.slot_fits; hand_fits = k.hand_fits }
read_chunk-IsBounded [] (x ∷ xs) i h k = k
read_chunk-IsBounded (b ∷ bs) rest i h k = record { slot_fits = k.slot_fits; hand_fits = h }

when_reading-IsBounded :
    (h : Option Chunk) (i next : Input)
    → IsBounded i
    → IsBounded next
    → IsBounded (when_reading i h next)
when_reading-IsBounded none i next k k' = by_alive i.alive
  where
    by_alive : (b : Bool) → IsBounded (if b then next else i)
    by_alive true = k'
    by_alive false = k
when_reading-IsBounded (some held) i next k k' = k

sent_on-IsBounded :
    (h o : Option Chunk) (i : Input) → i.hand ≡ h → IsBounded i → IsBounded (sent_on h o i)
sent_on-IsBounded none o i eh k = k
sent_on-IsBounded (some held) (some full) i eh k = k
sent_on-IsBounded (some (chunk bs)) none i eh k = record {
  slot_fits = rw (eh) at k.hand_fits;
  hand_fits = omega arith;
}
sent_on-IsBounded (some unreadable) none i eh k = record {
  slot_fits = omega arith;
  hand_fits = omega arith;
}

thread_turn-IsBounded : (t : ThreadTurn) (i : Input) → IsBounded i → IsBounded (thread_turn t i)
unfolding thread_turn
thread_turn-IsBounded (reads n) i k =
    when_reading-IsBounded i.hand i
      (read_chunk (take (min n chunk_size) i.unread) (drop (min n chunk_size) i.unread) i) k
      (read_chunk-IsBounded (take (min n chunk_size) i.unread) (drop (min n chunk_size) i.unread) i
        (omega (arith, length-take (min n chunk_size) i.unread)) k)
thread_turn-IsBounded interrupted i k = k
thread_turn-IsBounded read_fails i k =
    when_reading-IsBounded i.hand i (record i { hand = some unreadable }) k
      (record { slot_fits = k.slot_fits; hand_fits = omega arith })
thread_turn-IsBounded sends i k = sent_on-IsBounded i.hand i.slot i refl k

received-IsBounded :
    (o : Option Chunk) (i : Input) (b : Bridge) → IsBounded i → IsBounded (received o i b).0
received-IsBounded none i b k = k
received-IsBounded (some (chunk bs)) i b k = record {
  slot_fits = omega arith;
  hand_fits = k.hand_fits;
}
received-IsBounded (some unreadable) i b k = record {
  slot_fits = omega arith;
  hand_fits = k.hand_fits;
}

up_turn-IsBounded :
    (t : BridgeTurn) (u : Up) (i : Input) (b : Bridge) → IsBounded i → IsBounded (up_turn t u i b).0
up_turn-IsBounded receives waiting i b k = received-IsBounded i.slot i b k
up_turn-IsBounded (peer_takes n) (writing bs) i b k = k
up_turn-IsBounded half_closes shutting i b k = k
up_turn-IsBounded peer_fails (writing bs) i b k = k
up_turn-IsBounded peer_fails shutting i b k = k
up_turn-IsBounded t u i b k = k

bridge_turn-IsBounded :
    (t : BridgeTurn) (i : Input) (b : Bridge) → IsBounded i → IsBounded (bridge_turn t i b).0
unfolding bridge_turn
bridge_turn-IsBounded t i b k = by_result b.result (is_upstream t)
  where
    by_side : (s : Bool) → IsBounded (if s then up_turn t b.up i b else (i, out_of t b.second b)).0
    by_side true = up_turn-IsBounded t b.up i b k
    by_side false = k

    by_result : (r : Option Bool) (s : Bool) → IsBounded (while_running r t i b).0
    by_result (some result) s = k
    by_result none s = by_side (is_upstream t)

pumped-IsBounded :
    (t : BridgeTurn) (o : Option Bridge) (s : Stdio)
    → IsBounded s.input
    → IsBounded (pumped t o s).input
pumped-IsBounded t none s k = k
pumped-IsBounded t (some b) s k = bridge_turn-IsBounded t s.input b k

started_input :
    (bytes : List ℕ) (o : Option Bridge) (s : Stdio) → (started bytes o s).input ≡ s.input
started_input bytes none s = refl
started_input bytes (some b) s = refl

left_by_input : (o : Option Bridge) (s : Stdio) → (left_by o s).input ≡ s.input
left_by_input none s = refl
left_by_input (some b) s = refl

turn-IsBounded : (t : Turn) (s : Stdio) → IsBounded s.input → IsBounded (turn t s).input
turn-IsBounded (thread t) s k = thread_turn-IsBounded t s.input k
turn-IsBounded (pumps t) s k = pumped-IsBounded t s.current s k
turn-IsBounded (starts bytes) s k = rw (started_input bytes s.current s) k
turn-IsBounded leaves s k = rw (left_by_input s.current s) k

run-IsBounded : (ts : List Turn) (s : Stdio) → IsBounded s.input → IsBounded (run ts s).input
unfolding run
run-IsBounded [] s k = k
run-IsBounded (t ∷ ts) s k = run-IsBounded ts (turn t s) (turn-IsBounded t s k)

-- A slow peer holds back stdin. However the turns fall, of what the thread has read of stdin, all but two
-- chunks of its buffer's size have gone to a bridge.
pub run-ahead :
    (bytes : List ℕ) (ts : List Turn)
    → length bytes
      ≤ length (run ts (stdin_chunks bytes)).input.unread
        + (length (taken_by (run ts (stdin_chunks bytes)).past)
            + (length (taken_now (run ts (stdin_chunks bytes)).current) + 2 * chunk_size))
run-ahead bytes ts =
    let s : Stdio = run ts (stdin_chunks bytes) in
    let k : IsBounded s.input =
      run-IsBounded ts (stdin_chunks bytes)
        (record { slot_fits = omega arith; hand_fits = omega arith }) in
    let waits : List ℕ = chunk_bytes s.input.hand ++ s.input.unread in
    let in_process : List ℕ = chunk_bytes s.input.slot ++ waits in
    omega (
      arith,
      k.slot_fits,
      k.hand_fits,
      ap length (run-stdin_chunks bytes ts),
      length-append (taken_by s.past) (taken_now s.current ++ in_process),
      length-append (taken_now s.current) in_process,
      length-append (chunk_bytes s.input.slot) waits,
      length-append (chunk_bytes s.input.hand) s.input.unread,
    )
