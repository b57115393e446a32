-- ===== src/Bridge/Drained.antt =====
-- What a bridge copies to stdout.
use tightbeam.Base.{
  ℕ, ◌≡◌, refl, sym, ap, ◌∙◌, Bool, true, false, Option, none, some, List, [], ◌∷◌, ◌++◌,
  if◌then◌else◌, append-nil,
}
use tightbeam.Pump.{is_copied}
use tightbeam.Pump.Delivered.{all_bytes, moved-all_bytes, is_copied-written}
use tightbeam.Bridge.{
  Chunk, chunk, unreadable, Input, Up, waiting, shutting, writing, Out, copying, flushing, Bridge,
  BridgeTurn, receives, peer_takes, half_closes, peer_fails, moves, copied, flushed, out_fails,
  bridge_over, received, copy_of, up_turn, out_turn, flushed_result, out_of, is_upstream,
  while_running, bridge_turn, Stdio, Turn, thread, pumps, starts, leaves, started, pumped, left_by,
  turn, stdin_chunks, run,
}

-- A flush follows a copy that has written everything.
abbrev IsDone : Out → Type 0
IsDone (copying c) = Unit {0}
IsDone (flushing c) = c.written ≡ all_bytes c

-- The second copy, if any, goes on where the first one stopped reading.
abbrev GoesOn : Option Out → List ℕ → Type 0
GoesOn none rest = Unit {0}
GoesOn (some out) rest = (all_bytes (copy_of out) ≡ rest) × IsDone out

-- What the first copy held when `select!` dropped it, and what the second has written.
abbrev pub dropped : Option Out → Out → List ℕ
dropped none first = []
dropped (some second) first = (copy_of first).held

abbrev pub after : Option Out → List ℕ
after none = []
after (some second) = (copy_of second).written

-- What the bridge has written to stdout.
abbrev pub shown : Bridge → List ℕ
shown b = (copy_of b.first).written ++ after b.second

record BridgeKept (b : Bridge) : Type 0 where
  kept : all_bytes (copy_of b.first) ≡ b.reader
  done : IsDone b.first
  goes_on : GoesOn b.second ((copy_of b.first).unread)
  ended :
      b.result ≡ some true
      → b.reader ≡ (copy_of b.first).written ++ (dropped b.second b.first ++ after b.second)

never_ended : {P : Type 0} (b : Bridge) → b.result ≡ none → b.result ≡ some true → P
never_ended b running h = absurd cc

received-BridgeKept :
    (o : Option Chunk) (i : Input) (b : Bridge) → BridgeKept b → BridgeKept (received o i b).1
received-BridgeKept none i b k = by_alive i.alive
  where
    by_alive : (on : Bool) → BridgeKept (if on then b else record b { up = shutting })
    by_alive true = k
    by_alive false = record { kept = k.kept; done = k.done; goes_on = k.goes_on; ended = k.ended }
received-BridgeKept (some (chunk bs)) i b k = record {
  kept = k.kept;
  done = k.done;
  goes_on = k.goes_on;
  ended = k.ended;
}
received-BridgeKept (some unreadable) i b k = record {
  kept = k.kept;
  done = k.done;
  goes_on = k.goes_on;
  ended = λ no. absurd cc;
}

failed_kept : (b : Bridge) → BridgeKept b → BridgeKept (record b { result = some false })
failed_kept b k = record {
  kept = k.kept;
  done = k.done;
  goes_on = k.goes_on;
  ended = λ no. absurd cc;
}

up_turn-BridgeKept :
    (t : BridgeTurn) (u : Up) (i : Input) (b : Bridge)
    → b.result ≡ none
    → BridgeKept b
    → BridgeKept (up_turn t u i b).1
up_turn-BridgeKept receives waiting i b running k = received-BridgeKept i.slot i b k
up_turn-BridgeKept (peer_takes n) (writing bs) i b running k = record {
  kept = k.kept;
  done = k.done;
  goes_on = k.goes_on;
  ended = k.ended;
}
up_turn-BridgeKept half_closes shutting i b running k = record {
  kept = k.kept;
  done = k.done;
  goes_on = (refl, tt);
  ended = λ h. never_ended b running h;
}
up_turn-BridgeKept peer_fails (writing bs) i b running k = failed_kept b k
up_turn-BridgeKept peer_fails shutting i b running k = failed_kept b k
up_turn-BridgeKept t u i b running k = k

out_turn-all_bytes :
    (t : BridgeTurn) (o : Out) → all_bytes (copy_of (out_turn t o)) ≡ all_bytes (copy_of o)
out_turn-all_bytes (moves m) (copying c) = moved-all_bytes m c
out_turn-all_bytes copied (copying c) = by_end (is_copied c)
  where
    by_end : (b : Bool) → all_bytes (copy_of (if b then flushing c else copying c)) ≡ all_bytes c
    by_end true = refl
    by_end false = refl
out_turn-all_bytes t o = refl

out_turn-IsDone : (t : BridgeTurn) (o : Out) → IsDone o → IsDone (out_turn t o)
out_turn-IsDone (moves m) (copying c) h = tt
out_turn-IsDone copied (copying c) h = by_end (is_copied c) refl
  where
    by_end : (b : Bool) → is_copied c ≡ b → IsDone (if b then flushing c else copying c)
    by_end true is = is_copied-written c is
    by_end false is = tt
out_turn-IsDone t o h = h

flushed_whole :
    (out : Out) (bytes : List ℕ)
    → flushed_result out ≡ some true
    → all_bytes (copy_of out) ≡ bytes
    → IsDone out
    → bytes ≡ (copy_of out).written
flushed_whole (copying c) bytes h kept done = absurd cc
flushed_whole (flushing c) bytes h kept done = sym kept ∙ sym done

out_of-BridgeKept :
    (t : BridgeTurn) (second : Option Out) (b : Bridge)
    → b.second ≡ second
    → b.result ≡ none
    → BridgeKept b
    → BridgeKept (out_of t second b)
out_of-BridgeKept flushed none b at running k = record {
  kept = k.kept;
  done = k.done;
  goes_on = k.goes_on;
  ended = λ h. rw (at) (
      flushed_whole b.first b.reader h k.kept k.done
      ∙ sym (append-nil ((copy_of b.first).written)));
}
out_of-BridgeKept flushed (some out) b at running k = record {
  kept = k.kept;
  done = k.done;
  goes_on = k.goes_on;
  ended = λ h.
      let (kept', done') = rw (at) at k.goes_on in
      rw (at) (
        sym k.kept
        ∙ ap (λ l. (copy_of b.first).written ++ ((copy_of b.first).held ++ l))
            (flushed_whole out ((copy_of b.first).unread) h kept' done'));
}
out_of-BridgeKept out_fails second b at running k = failed_kept b k
out_of-BridgeKept t none b at running k = record {
  kept = out_turn-all_bytes t b.first ∙ k.kept;
  done = out_turn-IsDone t b.first k.done;
  goes_on = rw (at) tt;
  ended = λ h. never_ended b running h;
}
out_of-BridgeKept t (some out) b at running k =
    let (kept', done') = rw (at) at k.goes_on in
    record {
      kept = k.kept;
      done = k.done;
      goes_on = (out_turn-all_bytes t out ∙ kept', out_turn-IsDone t out done');
      ended = λ h. never_ended b running h;
    }

bridge_turn-BridgeKept :
    (t : BridgeTurn) (i : Input) (b : Bridge) → BridgeKept b → BridgeKept (bridge_turn t i b).1
unfolding bridge_turn
bridge_turn-BridgeKept t i b k = by_result b.result refl
  where
    by_side :
        (s : Bool)
        → b.result ≡ none
        → BridgeKept (if s then up_turn t b.up i b else (i, out_of t b.second b)).1
    by_side true running = up_turn-BridgeKept t b.up i b running k
    by_side false running = out_of-BridgeKept t b.second b refl running k

    by_result : (r : Option Bool) → b.result ≡ r → BridgeKept (while_running r t i b).1
    by_result (some result) is = k
    by_result none is = by_side (is_upstream t) is

abbrev CurrentKept : Option Bridge → Type 0
CurrentKept none = Unit {0}
CurrentKept (some b) = BridgeKept b

bridge_over-BridgeKept : (bytes : List ℕ) → BridgeKept (bridge_over bytes)
bridge_over-BridgeKept bytes = record {
  kept = refl;
  done = tt;
  goes_on = tt;
  ended = λ no. absurd cc;
}

started-CurrentKept :
    (bytes : List ℕ) (o : Option Bridge) (s : Stdio)
    → CurrentKept s.current
    → CurrentKept (started bytes o s).current
started-CurrentKept bytes none s k = bridge_over-BridgeKept bytes
started-CurrentKept bytes (some b) s k = k

pumped-CurrentKept :
    (t : BridgeTurn) (o : Option Bridge) (s : Stdio)
    → s.current ≡ o
    → CurrentKept s.current
    → CurrentKept (pumped t o s).current
pumped-CurrentKept t none s at k = k
pumped-CurrentKept t (some b) s at k = bridge_turn-BridgeKept t s.input b (rw (at) at k)

left_by-CurrentKept :
    (o : Option Bridge) (s : Stdio) → CurrentKept s.current → CurrentKept (left_by o s).current
left_by-CurrentKept none s k = k
left_by-CurrentKept (some b) s k = tt

turn-CurrentKept : (t : Turn) (s : Stdio) → CurrentKept s.current → CurrentKept (turn t s).current
turn-CurrentKept (thread t) s k = k
turn-CurrentKept (pumps t) s k = pumped-CurrentKept t s.current s refl k
turn-CurrentKept (starts bytes) s k = started-CurrentKept bytes s.current s k
turn-CurrentKept leaves s k = left_by-CurrentKept s.current s k

run-CurrentKept :
    (ts : List Turn) (s : Stdio) → CurrentKept s.current → CurrentKept (run ts s).current
unfolding run
run-CurrentKept [] s k = k
run-CurrentKept (t ∷ ts) s k = run-CurrentKept ts (turn t s) (turn-CurrentKept t s k)

-- What a bridge shows when it has ended without an error. It wrote to stdout everything that the peer
-- sent, in its order, but for one gap: when stdin ends first, what the copy toward stdout held at that
-- moment is dropped with it. With nothing held, stdout has it all.
pub run-shown :
    (bytes : List ℕ) (ts : List Turn) (b : Bridge)
    → (run ts (stdin_chunks bytes)).current ≡ some b
    → b.result ≡ some true
    → (b.reader ≡ (copy_of b.first).written ++ (dropped b.second b.first ++ after b.second))
      × (dropped b.second b.first ≡ [] → shown b ≡ b.reader)
run-shown bytes ts b at h =
    let k : CurrentKept (some b) = rw (at) at (run-CurrentKept ts (stdin_chunks bytes) tt) in
    (
      k.ended h,
      λ nothing.
          sym (k.ended h ∙ ap (λ l. (copy_of b.first).written ++ (l ++ after b.second)) nothing),
    )
