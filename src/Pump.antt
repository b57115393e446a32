-- ===== src/Pump.antt =====
-- src/lib.rs: the byte pumps. `splice_halves` is a row of turns of its two halves, as the runtime lets
-- them go on. `io::copy` is the runtime's: it takes bytes from the reader, holds some, and gives them to
-- the writer in order; how many, and when, is the turn's. A reader is the bytes that it still gives.
pub mod Delivered
pub mod Finished
use tightbeam.Base.{
  ℕ, Bool, true, false, ◌&&◌, ◌||◌, List, [], ◌∷◌, ◌++◌, take, drop, if◌then◌else◌,
}

-- `io::copy` under way: it is dropped together with what it holds.
pub record Copy : Type 0 where
  pub unread : List ℕ
  pub held : List ℕ
  pub written : List ℕ

abbrev pub copy_from : List ℕ → Copy
copy_from bytes = record { unread = bytes; held = []; written = [] }

pub data Move : Type 0 where
  reads writes : ℕ → Move

abbrev pub moved : Move → Copy → Copy
moved (reads n) c = record c { unread = drop n c.unread; held = c.held ++ take n c.unread }
moved (writes n) c = record c { held = drop n c.held; written = c.written ++ take n c.held }

abbrev pub is_nil : List ℕ → Bool
is_nil [] = true
is_nil (x ∷ xs) = false

-- The copy returns: the reader has ended and the writer has taken everything.
abbrev pub is_copied : Copy → Bool
is_copied c = is_nil c.unread && is_nil c.held

-- One half: the copy, then the shutdown of its writer.
pub data Half : Type 0 where
  copying shutting finished broken : Copy → Half

pub data HalfTurn : Type 0 where
  moves : Move → HalfTurn
  copied shut fails : HalfTurn

abbrev pub copy_turn : HalfTurn → Copy → Half
copy_turn (moves m) c = copying (moved m c)
copy_turn copied c = if is_copied c then shutting c else copying c
copy_turn shut c = copying c
copy_turn fails c = broken c

abbrev pub shut_turn : HalfTurn → Copy → Half
shut_turn (moves m) c = shutting c
shut_turn copied c = shutting c
shut_turn shut c = finished c
shut_turn fails c = broken c

abbrev pub half_turn : HalfTurn → Half → Half
half_turn t (copying c) = copy_turn t c
half_turn t (shutting c) = shut_turn t c
half_turn t (finished c) = finished c
half_turn t (broken c) = broken c

unfoldable pub half_run : List HalfTurn → Half → Half
half_run [] h = h
half_run (t ∷ ts) h = half_run ts (half_turn t h)

pub record Splice : Type 0 where
  pub upstream : Half
  pub downstream : Half

pub data Outcome : Type 0 where
  pending succeeded failed : Outcome

abbrev pub is_broken : Half → Bool
is_broken (broken c) = true
is_broken (copying c) = false
is_broken (shutting c) = false
is_broken (finished c) = false

abbrev pub is_finished : Half → Bool
is_finished (finished c) = true
is_finished (copying c) = false
is_finished (shutting c) = false
is_finished (broken c) = false

-- `try_join!`
unfoldable pub outcome : Splice → Outcome
outcome s =
    if is_broken s.upstream || is_broken s.downstream
    then failed
    else if is_finished s.upstream && is_finished s.downstream
    then succeeded
    else pending

pub data Side : Type 0 where
  up down : Side

abbrev pub side_turn : Side → HalfTurn → Splice → Splice
side_turn up t s = record s { upstream = half_turn t s.upstream }
side_turn down t s = record s { downstream = half_turn t s.downstream }

abbrev pub while_pending : Outcome → Splice → Splice → Splice
while_pending pending s next = next
while_pending succeeded s next = s
while_pending failed s next = s

-- `splice` and `splice_halves`, of what the local reader and the peer's reader give.
abbrev pub splice : List ℕ → List ℕ → Splice
splice local peer = record {
  upstream = copying (copy_from local);
  downstream = copying (copy_from peer);
}

unfoldable pub splice_run : List (Side × HalfTurn) → Splice → Splice
splice_run [] s = s
splice_run ((side, t) ∷ ts) s = splice_run ts (while_pending (outcome s) s (side_turn side t s))
