-- ===== src/Sources.antt =====
-- src/raw_stream.rs and src/raw_stream/guarded.rs: the sources of raw streams. A path source is opened
-- under guards, of which the system calls' answers are arguments; a `+lossy` source memoizes one fan-out
-- session behind one lock, over the model of tightbeam.Fanout. Texts of errors are their classes.
pub mod Guards
pub mod Rearmed
use tightbeam.Base.{
  ℕ, zero, suc, ◌*◌, ◌^◌, Bool, true, false, not, ◌&&◌, ◌||◌, Option, none, some, List, [], ◌∷◌,
  any, ◌==◌, if◌then◌else◌,
}
use tightbeam.Base.Bytes.{Text}
use tightbeam.Base.Results.{Result, ok, err, ◌>>=◌, ◌>>◌}
use tightbeam.Fanout.{Shared, Cursor, Lifetime, until_eof, while_watched, new, open_cursor}

pub data Kind : Type 0 where
  file fifo : Kind

-- `S_IFMT`
pub data FileType : Type 0 where
  block_device char_device directory symlink socket pipe regular unknown : FileType

pub data Unopened : Type 0 where
  nul_byte is_symlink cannot_open cannot_stat cannot_wait timed_out : Unopened
  not_a_file not_a_fifo : FileType → Unopened

-- The type guard: the same match in the check at serving time and in the open.
abbrev pub admits : Kind → FileType → Result Unopened (Unit {0})
admits file regular = ok tt
admits file pipe = ok tt
admits file found = err (not_a_file found)
admits fifo pipe = ok tt
admits fifo found = err (not_a_fifo found)

-- `symlink_metadata`
pub data Lstat : Type 0 where
  not_found failed : Lstat
  found : FileType → Lstat

unfoldable pub check_open_path : Lstat → Kind → Result Unopened (Unit {0})
check_open_path not_found kind = ok tt
check_open_path failed kind = err cannot_stat
check_open_path (found symlink) kind = err is_symlink
check_open_path (found type) kind = admits kind type

-- `open` with `O_NOFOLLOW`, and the `fstat` of what it opened.
pub data OpenCall : Type 0 where
  eloop other_error : OpenCall
  descriptor : (fstat : Option FileType) → OpenCall

pub data Guarded : Type 0 where
  is_regular is_fifo : Guarded

abbrev pub sort_of : FileType → Guarded
sort_of pipe = is_fifo
sort_of type = is_regular

abbrev pub guard_type : Kind → Option FileType → Result Unopened Guarded
guard_type kind none = err cannot_stat
guard_type kind (some type) = admits kind type >> ok (sort_of type)

abbrev pub guard_call : Kind → OpenCall → Result Unopened Guarded
guard_call kind eloop = err is_symlink
guard_call kind other_error = err cannot_open
guard_call kind (descriptor fstat) = guard_type kind fstat

unfoldable pub open_guarded : Text → Kind → OpenCall → Result Unopened Guarded
open_guarded path kind call = if any (λ b. b == 0) path then err nul_byte else guard_call kind call

abbrev pub raw_stream_open_timeout : ℕ
raw_stream_open_timeout = 10 * 10 ^ 9

-- The wait of a FIFO for its writer.
pub data Wait : Type 0 where
  became_readable wait_failed elapsed : Wait

abbrev pub await_writer : Wait → Guarded → Result Unopened Guarded
await_writer wait is_regular = ok is_regular
await_writer became_readable is_fifo = ok is_fifo
await_writer wait_failed is_fifo = err cannot_wait
await_writer elapsed is_fifo = err timed_out

unfoldable pub open_path : Text → Kind → OpenCall → Wait → Result Unopened Guarded
unfolding open_guarded
open_path path kind call wait = open_guarded path kind call >>= λ opened. await_writer wait opened

pub data Opener (Source : Type 0) : Type 0 where
  of_fifo : (path : Text) → Opener Source
  ready : Source → Opener Source

-- `fifo` is the path that a new session is armed with again.
pub record LossyState (Source : Type 0) : Type 0 where
  pub opener : Option (Opener Source)
  pub fifo : Option Text
  pub fanout : Option (Shared Source)

-- The open of the path, where there is one: the reader, an error, or the caller gone while it waited.
pub data Attempt (Source : Type 0) : Type 0 where
  opened : Source → Attempt Source
  refused : Unopened → Attempt Source
  cancelled : Attempt Source

pub data Answer : Type 0 where
  reading : Cursor → Answer
  unopened : Unopened → Answer
  not_armed session_ended abandoned looping : Answer

-- What the first half of a turn leaves: a state to attach in, or the end of the call.
pub data Turn (Source : Type 0) : Type 0 where
  goes_on : LossyState Source → Turn Source
  stops : Answer → Turn Source

module _ {Source : Type 0} where
  abbrev pub path_of : Opener Source → Option Text
  path_of (of_fifo path) = some path
  path_of (ready source) = none

  -- `Lossy::new`
  unfoldable pub lossy : Opener Source → LossyState Source
  lossy opener = record { opener = some opener; fifo = path_of opener; fanout = none }

  abbrev pub armed_with : Source → Lifetime → LossyState Source → Turn Source
  armed_with source lifetime state =
      goes_on (record state { opener = none; fanout = some (new source lifetime) })

  abbrev pub arm_path : Attempt Source → LossyState Source → Turn Source
  arm_path (opened source) state = armed_with source while_watched state
  arm_path (refused why) state = stops (unopened why)
  arm_path cancelled state = stops abandoned

  abbrev pub arm_opener : Attempt Source → LossyState Source → Option (Opener Source) → Turn Source
  arm_opener attempt state none = goes_on state
  arm_opener attempt state (some (of_fifo path)) = arm_path attempt state
  arm_opener attempt state (some (ready source)) = armed_with source until_eof state

  abbrev pub arm : Attempt Source → LossyState Source → Turn Source
  arm attempt state = elim state.fanout [
    | some fanout ↦ goes_on state
    | none ↦ arm_opener attempt state state.opener
  ]

  -- The session is over: a FIFO is armed again and the loop goes on.
  abbrev pub rearm :
      LossyState Source
      → Option Text
      → (LossyState Source → LossyState Source × Answer)
      → LossyState Source × Answer
  rearm state none again = (state, session_ended)
  rearm state (some path) again =
      again (record state { opener = some (of_fifo path); fanout = none })

  abbrev pub attach_to :
      LossyState Source
      → Option Cursor × Shared Source
      → (LossyState Source → LossyState Source × Answer)
      → LossyState Source × Answer
  attach_to state (some cursor, after) again =
      (record state { fanout = some after }, reading cursor)
  attach_to state (none, after) again =
      rearm (record state { fanout = some after }) state.fifo again

  abbrev pub attach_turn :
      LossyState Source
      → Turn Source
      → (LossyState Source → LossyState Source × Answer)
      → LossyState Source × Answer
  attach_turn before (stops answer) again = (before, answer)
  attach_turn before (goes_on state) again = elim state.fanout [
    | none ↦ (state, not_armed)
    | some fanout ↦ attach_to state (open_cursor fanout) again
  ]

  -- `Lossy::open`, under its lock, for so many turns of its loop.
  unfoldable pub open_lossy : ℕ → Attempt Source → LossyState Source → LossyState Source × Answer
  unfolding open_cursor
  open_lossy zero attempt state = (state, looping)
  open_lossy (suc turns) attempt state =
      attach_turn state (arm attempt state) (λ next. open_lossy turns attempt next)
