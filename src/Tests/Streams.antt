-- ===== src/Tests/Streams.antt =====
-- Runs of src/raw_stream_fanout.rs.
use tightbeam.Base.{◌||◌, ℕ, ◌+◌, ◌≡◌, refl, false, [], ◌∷◌, ◌++◌, length, arith}
use tightbeam.Fanout.{
  Cursor, ready, Read, got, failed, until_eof, look, append, pump_step, open_cursor, drop_cursor,
}
use tightbeam.Fanout.Window.{window, append-window}
use tightbeam.Fanout.Reading.{look-window, bytes_of}
use tightbeam.Fanout.Session.{
  World, Steps, attaches, pumps, leaves, here, then_step, begin, IsSound, fed, finds_end,
}
use tightbeam.Fanout.Soundness.{Steps-IsSound}

look-window_example :
    ((look (window (5 ∷ 6 ∷ 7 ∷ []) false) 2 (record { pos = 1; lagged = false })).0
      ≡ ready (6 ∷ 7 ∷ []))
    × ((look (window (5 ∷ 6 ∷ 7 ∷ []) false) 2 (record { pos = 1; lagged = false })).1.pos
        ≡ 1
          + length (
              bytes_of
                (look (window (5 ∷ 6 ∷ 7 ∷ []) false) 2 (record { pos = 1; lagged = false })).0))
look-window_example =
    look-window (5 ∷ 6 ∷ 7 ∷ []) false 2 (record { pos = 1; lagged = false }) (omega arith)

-- One consumer comes, the pump reads two bytes, the consumer reads one of them and leaves, and the
-- input ends.
abbrev fresh_cursor : Cursor
fresh_cursor = record { pos = 0; lagged = false }

abbrev watched : World ℕ
watched = record {
  shared = (open_cursor (begin 7 until_eof).shared).1;
  cursors = fresh_cursor ∷ [];
  feed = [];
  over = false;
}

watched_trace : Steps (begin 7 until_eof) watched
unfolding open_cursor
watched_trace = then_step (here _) (attaches (begin 7 until_eof) fresh_cursor _ refl)

abbrev pumped : Read → World ℕ → World ℕ
pumped read w = record {
  shared = pump_step read w.shared;
  cursors = w.cursors;
  feed = w.feed ++ fed w.shared.pump read;
  over = w.over || finds_end w.shared.pump read;
}

abbrev streaming : World ℕ
streaming = pumped (got (5 ∷ 6 ∷ [])) (pumped failed watched)

streaming_trace : Steps (begin 7 until_eof) streaming
streaming_trace = then_step (then_step watched_trace (pumps _ failed)) (pumps _ (got (5 ∷ 6 ∷ [])))

-- The consumer leaves.
abbrev left : World ℕ
left = record {
  shared = drop_cursor streaming.shared;
  cursors = [];
  feed = streaming.feed;
  over = streaming.over;
}

left_trace : Steps (begin 7 until_eof) left
left_trace = then_step streaming_trace (leaves streaming [] [] fresh_cursor refl)

abbrev finished : World ℕ
finished = pumped failed (pumped failed (pumped (got []) (pumped failed left)))

finished_trace : Steps (begin 7 until_eof) finished
finished_trace =
    then_step
      (then_step (then_step (then_step left_trace (pumps _ failed)) (pumps _ (got [])))
        (pumps _ failed))
      (pumps _ failed)

Steps-IsSound_example : IsSound streaming
Steps-IsSound_example = Steps-IsSound 7 until_eof streaming streaming_trace

append-window_example : append (7 ∷ []) (window (5 ∷ 6 ∷ []) false) ≡ window (5 ∷ 6 ∷ 7 ∷ []) false
append-window_example = append-window (5 ∷ 6 ∷ []) (7 ∷ []) false
