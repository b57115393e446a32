-- ===== src/Enabled.antt =====
-- src/enabled.rs: the list of disabled services behind a file that another process edits. Instants
-- are nanoseconds. What the file system answers is an argument: a stamp of the file or a failure, and
-- the names that the file holds or a failure.
pub mod Closed
pub mod Decode
pub mod Listed
use tightbeam.Base.{
  ℕ, ◌+◌, ◌-◌, ◌*◌, ◌^◌, ◌≡◌, Bool, true, false, not, ◌&&◌, ◌||◌, Option, none, some, List, [], ◌∷◌,
  any, ltb, ◌==◌, if◌then◌else◌, same_bytes,
}
use tightbeam.Base.Bytes.{Text}

abbrev pub stat_debounce : ℕ
stat_debounce = 100 * 10 ^ 6

-- The modification time, and the length.
pub record Stamp : Type 0 where
  pub mtime : ℕ
  pub len : ℕ

pub record State : Type 0 where
  pub disabled : List Text
  pub stamp : Option Stamp
  pub last_stat : Option ℕ

abbrev pub same_stamp : Option Stamp → Option Stamp → Bool
same_stamp none none = true
same_stamp none (some b) = false
same_stamp (some a) none = false
same_stamp (some a) (some b) = (a.mtime == b.mtime) && (a.len == b.len)

abbrev pub lists : Text → List Text → Bool
lists service names = any (λ name. same_bytes name service) names

-- One check: when it is made, what the file's metadata was (no stamp where the platform has none), and
-- what a read of the file gave.
pub record Check : Type 0 where
  pub now : ℕ
  pub metadata : Option (Option Stamp)
  pub names : Option (List Text)

abbrev pub load : List Text → Option Stamp → State
load names stamp = record { disabled = names; stamp = stamp; last_stat = none }

abbrev pub is_recent : ℕ → Option ℕ → Bool
is_recent now none = false
is_recent now (some last) = ltb (now - last) stat_debounce

abbrev pub replace : Option (List Text) → Option Stamp → State → State
replace none current state = state
replace (some names) current state = record {
  disabled = names;
  stamp = current;
  last_stat = state.last_stat;
}

-- What follows the stat.
abbrev pub reload : Option (Option Stamp) → Option (List Text) → State → State
reload none names state = state
reload (some current) names state =
    if same_stamp current state.stamp then state else replace names current state

unfoldable pub refresh : Check → State → State
refresh check state =
    if is_recent check.now state.last_stat
    then state
    else reload check.metadata check.names
        (record { disabled = state.disabled; stamp = state.stamp; last_stat = some check.now })

unfoldable pub is_enabled : Check → Text → State → Bool × State
unfolding refresh
is_enabled check service state =
    let after = refresh check state in (not (lists service after.disabled), after)
