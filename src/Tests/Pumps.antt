-- ===== src/Tests/Pumps.antt =====
-- Splices, and bridges to the standard streams.
use tightbeam.Base.{◌≡◌, ◌≢◌, refl, true, some, List, [], ◌∷◌, ◌++◌}
use tightbeam.Pump.{
  reads, writes, HalfTurn, moves, copied, shut, fails, succeeded, failed, outcome, Side, up, down,
  splice, splice_run,
}
use tightbeam.Pump.Delivered.{all_bytes, copy_of, splice_run-delivers}
use tightbeam.Bridge.{chunk_size, Bridge, Turn, Stdio, stdin_chunks, run, thread_turn, bridge_turn}
use tightbeam.Bridge
use tightbeam.Bridge.Chunks.{all_input, run-stdin_chunks}
use tightbeam.Bridge.Drained.{dropped, shown, run-shown}

abbrev pub both_ways : List (Side × HalfTurn)
both_ways =
    (up, moves (reads 2))
    ∷ (down, moves (reads 1))
    ∷ (up, moves (writes 2))
    ∷ (up, copied)
    ∷ (down, moves (writes 1))
    ∷ (up, shut)
    ∷ (down, copied)
    ∷ (down, shut)
    ∷ []

both_ways_done : outcome (splice_run both_ways (splice (1 ∷ 2 ∷ []) (3 ∷ []))) ≡ succeeded
unfolding outcome splice_run
both_ways_done = refl

-- An error of one half ends the splice, whatever the other does.
broken_half :
    outcome (splice_run ((down, fails) ∷ both_ways) (splice (1 ∷ 2 ∷ []) (3 ∷ []))) ≡ failed
unfolding outcome splice_run
broken_half = refl

-- A bridge that takes 7 and 8 from stdin, and whose copy holds 2 when stdin ends.
abbrev short_input : List Turn
short_input =
    Bridge.starts (1 ∷ 2 ∷ 3 ∷ [])
    ∷ Bridge.pumps (Bridge.moves (reads 2))
    ∷ Bridge.pumps (Bridge.moves (writes 1))
    ∷ Bridge.thread (Bridge.reads 2)
    ∷ Bridge.thread Bridge.sends
    ∷ Bridge.pumps Bridge.receives
    ∷ Bridge.pumps (Bridge.peer_takes 2)
    ∷ Bridge.thread (Bridge.reads 2)
    ∷ Bridge.pumps Bridge.receives
    ∷ Bridge.pumps Bridge.half_closes
    ∷ Bridge.pumps (Bridge.moves (reads 1))
    ∷ Bridge.pumps (Bridge.moves (writes 1))
    ∷ Bridge.pumps Bridge.copied
    ∷ Bridge.pumps Bridge.flushed
    ∷ []

abbrev after_short : Bridge
after_short = record {
  reader = 1 ∷ 2 ∷ 3 ∷ [];
  sent = 7 ∷ 8 ∷ [];
  up = Bridge.over;
  first = Bridge.copying (record { unread = 3 ∷ []; held = 2 ∷ []; written = 1 ∷ [] });
  second = some (Bridge.flushing (record { unread = []; held = []; written = 3 ∷ [] }));
  result = some true;
}

short_input_ends : (run short_input (stdin_chunks (7 ∷ 8 ∷ []))).current ≡ some after_short
unfolding run thread_turn bridge_turn
short_input_ends = refl

-- The bridge has ended without an error, and 2 is missing from stdout.
short_input_shown : shown after_short ≡ 1 ∷ 3 ∷ []
short_input_shown = refl

splice_run-delivers_example :
    (all_bytes (copy_of (splice_run both_ways (splice (1 ∷ 2 ∷ []) (3 ∷ []))).upstream)
      ≡ 1 ∷ 2 ∷ [])
    × (all_bytes (copy_of (splice_run both_ways (splice (1 ∷ 2 ∷ []) (3 ∷ []))).downstream)
        ≡ 3 ∷ [])
    × (outcome (splice_run both_ways (splice (1 ∷ 2 ∷ []) (3 ∷ []))) ≡ succeeded
        → ((copy_of (splice_run both_ways (splice (1 ∷ 2 ∷ []) (3 ∷ []))).upstream).written
            ≡ 1 ∷ 2 ∷ [])
          × ((copy_of (splice_run both_ways (splice (1 ∷ 2 ∷ []) (3 ∷ []))).downstream).written
              ≡ 3 ∷ []))
    × (outcome (splice_run both_ways (splice (1 ∷ 2 ∷ []) (3 ∷ []))) ≢ failed
        → (more : List (Side × HalfTurn)) × (outcome
              (splice_run more (splice_run both_ways (splice (1 ∷ 2 ∷ []) (3 ∷ []))))
            ≡ succeeded))
splice_run-delivers_example = splice_run-delivers (1 ∷ 2 ∷ []) (3 ∷ []) both_ways

run-stdin_chunks_example : all_input (run short_input (stdin_chunks (7 ∷ 8 ∷ []))) ≡ 7 ∷ 8 ∷ []
run-stdin_chunks_example = run-stdin_chunks (7 ∷ 8 ∷ []) short_input

run-shown_example :
    (after_short.reader ≡ 1 ∷ [] ++ (2 ∷ [] ++ 3 ∷ []))
    × (dropped after_short.second after_short.first ≡ [] → shown after_short ≡ 1 ∷ 2 ∷ 3 ∷ [])
run-shown_example = run-shown (7 ∷ 8 ∷ []) short_input after_short short_input_ends refl
