-- ===== src/Enabled/Closed.antt =====
-- A disabled service stays disabled.
use tightbeam.Base.{
  ◌≡◌, ap, Bool, true, false, not, Option, none, some, List, [], ◌∷◌, Bool-cases, inl, inr, All,
}
use tightbeam.Base.Bytes.{Text}
use tightbeam.Enabled.{
  Stamp, State, Check, same_stamp, lists, is_recent, reload, refresh, is_enabled,
}

-- A read that failed, or that found the service.
abbrev pub keeps : Text → Option (List Text) → Bool
keeps service none = true
keeps service (some names) = lists service names

reload-lists :
    (service : Text) (metadata : Option (Option Stamp)) (names : Option (List Text)) (state : State)
    → keeps service names ≡ true
    → lists service state.disabled ≡ true
    → lists service (reload metadata names state).disabled ≡ true
reload-lists service none names state k h = h
reload-lists service (some current) none state k h =
    elim (Bool-cases (same_stamp current state.stamp)) [
      | inl same ↦ rw (same) h
      | inr changed ↦ rw (changed) h
    ]
reload-lists service (some current) (some names) state k h =
    elim (Bool-cases (same_stamp current state.stamp)) [
      | inl same ↦ rw (same) h
      | inr changed ↦ rw (changed) k
    ]

refresh-lists :
    (service : Text) (check : Check) (state : State)
    → keeps service check.names ≡ true
    → lists service state.disabled ≡ true
    → lists service (refresh check state).disabled ≡ true
unfolding refresh
refresh-lists service check state k h = elim (Bool-cases (is_recent check.now state.last_stat)) [
  | inl recent ↦ rw (recent) h
  | inr due ↦ rw (due) (
      reload-lists service check.metadata check.names
        (record { disabled = state.disabled; stamp = state.stamp; last_stat = some check.now }) k h)
]

-- The answers to a row of checks of one service.
unfoldable pub answers : List Check → Text → State → List Bool
unfolding is_enabled
answers [] service state = []
answers (check ∷ checks) service state =
    let after = is_enabled check service state in after.0 ∷ answers checks service after.1

-- A service that is in the list is reported disabled by every later check, however the file's
-- metadata, its absence and the debounce fall, as long as no read that succeeds has left it out.
pub answers-disabled :
    (checks : List Check) (service : Text) (state : State)
    → All (λ check. keeps service check.names ≡ true) checks
    → lists service state.disabled ≡ true
    → All (λ answer. answer ≡ false) (answers checks service state)
unfolding answers is_enabled
answers-disabled [] service state k h = tt
answers-disabled (check ∷ checks) service state k h =
    let kept : lists service (refresh check state).disabled ≡ true =
      refresh-lists service check state k.0 h in
    (ap not kept, answers-disabled checks service (refresh check state) k.1 kept)
