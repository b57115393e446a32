-- ===== src/Tests/Stdin.antt =====
-- Runs of src/raw_stream/seat.rs.
use tightbeam.Base.{ℕ, ◌*◌, ◌≡◌, refl, true, false, Option, none, List, [], ◌∷◌, arith}
use tightbeam.Seat.Meter.{pending, took, preemptible, second, is_open}
use tightbeam.Seat.Stalled.{Event, run, refused-preemptible}
use tightbeam.Seat.{armed, spent, take, put_back, filled, is_ended}
use tightbeam.Seat.Conserved

-- A refusal at the first second, and a little taken half a minute later.
abbrev trickle : List Event
trickle =
    record { write = pending; time = 31 * second }
    ∷ record { write = took 3; time = 31 * second }
    ∷ record { write = pending; time = second }
    ∷ []

refused-preemptible_example :
    preemptible (91 * second) (run (record { write = pending; time = second } ∷ [])) ≡ true
unfolding run is_open
refused-preemptible_example = refused-preemptible [] second (91 * second) refl (omega arith)

-- Peer 1 takes the seat.
abbrev lent_to_one : Conserved.World ℕ
lent_to_one = record {
  cell = (take 1 0 (armed 7)).0;
  guard = Conserved.lent_by (take {Reader = ℕ} 1 0 (armed 7)).1 none;
  over = false;
}

lent_trace : Conserved.Steps (Conserved.begin 7) lent_to_one
lent_trace = Conserved.then_step (Conserved.here _) (Conserved.dials (Conserved.begin 7) 1 0)

-- Its read finds the end of input.
abbrev read_out : Conserved.World ℕ
read_out = record { cell = spent; guard = none; over = true }

read_out_trace : Conserved.Steps (Conserved.begin 7) read_out
unfolding take put_back is_ended
read_out_trace =
    Conserved.then_step lent_trace (Conserved.reads lent_to_one 7 true 4 (filled 0) refl)

reader_kept_example : (◌≡◌ {A = Option ℕ} none none) × (true ≡ true)
reader_kept_example = Conserved.reader_kept 7 read_out read_out_trace
