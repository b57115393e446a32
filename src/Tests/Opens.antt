-- ===== src/Tests/Opens.antt =====
-- Raw streams that open, and that do not.
use tightbeam.Base.{ℕ, ◌≡◌, ◌↔◌, refl, none, some, [], ◌∷◌, true, false}
use tightbeam.Base.Bytes.{Text}
use tightbeam.Base.Results.{ok, err}
use tightbeam.Fanout.{Shared, ended, while_watched}
use tightbeam.Sources.{
  fifo, file, pipe, regular, Guarded, descriptor, found, elapsed, became_readable, check_open_path,
  open_path, LossyState, opened, open_lossy, reading, session_ended, timed_out, is_fifo,
}
use tightbeam.Sources.Guards.{IsSource, itself, open_path-IsSource}
use tightbeam.Sources.Rearmed.{live_fifo, Opened, open_lossy-Opened}

abbrev some_path : Text
some_path = b'/' ∷ b'p' ∷ []

open_path-IsSource_example :
    ((check_open_path (found regular) fifo ≡ ok tt) ↔ IsSource fifo regular)
    × ((g : Guarded)
        → open_path some_path fifo (descriptor (some regular)) elapsed ≡ ok g
        → IsSource fifo regular)
open_path-IsSource_example =
    open_path-IsSource some_path fifo regular (descriptor (some regular)) elapsed itself

writer_came : open_path some_path fifo (descriptor (some pipe)) became_readable ≡ ok is_fifo
unfolding open_path
writer_came = refl

no_writer : open_path some_path file (descriptor (some pipe)) elapsed ≡ err timed_out
unfolding open_path
no_writer = refl

-- A session whose pump has gone, over a FIFO and over the standard input.
abbrev spent : Shared ℕ
spent = record {
  ring = record { buf = []; base = 7; closed = true };
  life = record { source = none; consumers = 0; lifetime = while_watched };
  pump = ended;
}

abbrev over_fifo : LossyState ℕ
over_fifo = record { opener = none; fifo = some some_path; fanout = some spent }

open_lossy-Opened_example : Opened over_fifo (opened 5) (open_lossy 2 (opened 5) over_fifo)
open_lossy-Opened_example = open_lossy-Opened 0 (opened 5) over_fifo (live_fifo some_path spent)

reopened : (open_lossy 2 (opened 5) over_fifo).1 ≡ reading (record { pos = 0; lagged = false })
unfolding open_lossy
reopened = refl

not_again :
    (open_lossy 2 (opened 5) (record { opener = none; fifo = none; fanout = some spent })).1
    ≡ session_ended
unfolding open_lossy
not_again = refl
