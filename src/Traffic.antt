-- ===== src/Traffic.antt =====
-- src/tunnel/admit.rs: the deadline for the first traffic of an admitted stream. A half of the stream
-- is its polls, with the instant of each in nanoseconds since the hand-over. Every poll that moves no
-- byte is passed on unseen.
pub mod Silence
use tightbeam.Base.{
  ℕ, ◌*◌, ◌^◌, Bool, true, false, ◌||◌, Option, none, some, List, [], ◌∷◌, ltb, leb, if◌then◌else◌,
}

abbrev pub request_read_timeout : ℕ
request_read_timeout = 10 * 10 ^ 9

abbrev pub first_traffic_timeout : ℕ
first_traffic_timeout = 10 * 10 ^ 9

pub data WritePoll : Type 0 where
  pending failed : WritePoll
  wrote : ℕ → WritePoll

-- A read, by the filled length of its buffer before and after.
pub data Poll : Type 0 where
  polled_read : (before after : ℕ) → Poll
  polled_write polled_write_vectored : WritePoll → Poll
  polled_flush polled_shutdown : Poll

-- `Poll::Ready(Ok(1..))`
abbrev pub carried : WritePoll → Bool
carried pending = false
carried failed = false
carried (wrote n) = leb 1 n

-- `Watched`: the shared bit after one poll.
unfoldable pub watched : Poll → Bool → Bool
watched (polled_read before after) moved = moved || ltb before after
watched (polled_write result) moved = moved || carried result
watched (polled_write_vectored result) moved = moved || carried result
watched polled_flush moved = moved
watched polled_shutdown moved = moved

pub record Timed : Type 0 where
  pub instant : ℕ
  pub poll : Poll

-- `FirstTraffic` when the timer fires: the polls of both halves that came no later.
unfoldable pub traffic_by : ℕ → List Timed → Bool → Bool
unfolding watched
traffic_by deadline [] moved = moved
traffic_by deadline (t ∷ ts) moved =
    traffic_by deadline ts (if leb t.instant deadline then watched t.poll moved else moved)

pub data Race : Type 0 where
  finished dropped : Race

abbrev pub finished_by : ℕ → Option ℕ → Bool
finished_by deadline none = false
finished_by deadline (some instant) = leb instant deadline

-- The `select!` of `serve_ready`: a handler that finishes at the deadline wins, and once a byte has
-- moved the timer never fires. `finish` is when the handler is done, if it ever is.
unfoldable pub serve_prepared : List Timed → (finish : Option ℕ) → Race
unfolding traffic_by
serve_prepared polls finish =
    if finished_by first_traffic_timeout finish || traffic_by first_traffic_timeout polls false
    then finished
    else dropped

-- The `timeout_at` around it on a proven-only route: `deadline` is the instant that the admission set,
-- since the hand-over, and a handler that has finished by then ends as it would without it.
unfoldable pub serve_until : (deadline : Option ℕ) → List Timed → (finish : Option ℕ) → Race
unfolding serve_prepared
serve_until none polls finish = serve_prepared polls finish
serve_until (some deadline) polls finish =
    if finished_by deadline finish then serve_prepared polls finish else dropped
