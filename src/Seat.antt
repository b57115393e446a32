-- ===== src/Seat.antt =====
-- src/raw_stream/seat.rs: the one standard input, lent to one peer at a time. The reader is a
-- parameter and a node id is a number. `take` and `put_back` run under the seat's one lock. The
-- guard's reader is the world's (see Conserved); the log is not modelled.
pub mod Meter
pub mod Stalled
pub mod Conserved
use tightbeam.Base.{ℕ, Bool, true, false, not, ◌||◌, Option, none, some, ◌==◌, ◌&&◌, if◌then◌else◌}
use tightbeam.Seat.Meter.{Gauge, fresh, preemptible}

pub data SeatRefusal : Type 0 where
  is_held is_spent : SeatRefusal

pub record Holder : Type 0 where
  pub peer : ℕ
  pub meter : Gauge

pub data Cell (Reader : Type 0) : Type 0 where
  armed : Reader → Cell Reader
  held : Holder → Cell Reader
  handing : (dialer : ℕ) → Cell Reader
  spent : Cell Reader

-- A seat taken is the reader that its guard is lent.
pub data Take (Reader : Type 0) : Type 0 where
  seated : Reader → Take Reader
  -- `told` is the holder whose splice is ended.
  waiting : (told : ℕ) → Take Reader
  refused : SeatRefusal → Take Reader

pub data Lent (Reader : Type 0) : Type 0 where
  reading : Reader → Lent Reader
  ended : Lent Reader

-- What goes to the waiting dialer, and what becomes of the reader that came back.
pub data Back (Reader : Type 0) : Type 0 where
  kept dropped : Back Reader
  granted : Reader → Back Reader
  told_spent : Back Reader

abbrev pub seat : ℕ → Holder
seat peer = record { peer = peer; meter = fresh }

module _ {Reader : Type 0} where
  unfoldable pub take : ℕ → ℕ → Cell Reader → Cell Reader × Take Reader
  take dialer now (armed reader) = (held (seat dialer), seated reader)
  take dialer now spent = (spent, refused is_spent)
  take dialer now (handing other) = (handing other, refused is_held)
  take dialer now (held holder) =
      if (holder.peer == dialer) || not (preemptible now holder.meter)
      then (held holder, refused is_held)
      else (handing dialer, waiting holder.peer)

  -- `waits` is whether the dialer of a hand-off still does.
  unfoldable pub put_back : Lent Reader → Bool → Cell Reader → Cell Reader × Back Reader
  put_back lent waits (armed reader) = (armed reader, dropped)
  put_back lent waits spent = (spent, dropped)
  put_back ended waits (held holder) = (spent, kept)
  put_back ended waits (handing dialer) = (spent, told_spent)
  put_back (reading reader) waits (held holder) = (armed reader, kept)
  put_back (reading reader) waits (handing dialer) =
      if waits then (held (seat dialer), granted reader) else (armed reader, kept)

  -- `claim`, given what the wait for the reader ended with: a grant, or nothing in time.
  unfoldable pub claim : Take Reader → Option (Back Reader) → Option SeatRefusal
  claim (seated reader) answer = none
  claim (refused refusal) answer = some refusal
  claim (waiting told) none = some is_held
  claim (waiting told) (some (granted reader)) = none
  claim (waiting told) (some told_spent) = some is_spent
  claim (waiting told) (some kept) = some is_held
  claim (waiting told) (some dropped) = some is_held

-- What one read of the lent reader returned.
pub data Polled : Type 0 where
  filled : ℕ → Polled
  failed pending : Polled

-- Whether that read spends the seat, for a buffer with room for `asked` bytes.
unfoldable pub is_ended : ℕ → Polled → Bool
is_ended asked (filled n) = not (asked == 0) && (n == 0)
is_ended asked failed = true
is_ended asked pending = false
