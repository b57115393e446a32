-- ===== src/Tests/Sessions.antt =====
-- Runs of src/tunnel/cut.rs.
use tightbeam.Base.{Option, ℕ, ◌≡◌, refl, false, none, some, [], ◌∷◌, ◌==◌}
use tightbeam.Base.Results.{ok, err}
use tightbeam.Cut.{
  Cap, AdmittedChains, record_all, of_stream, extend, session_cut, denylist, expired, recalled,
  nothing_admitted, unreadable_expiry, keep, lapsed, peer_keys,
}
use tightbeam.Cut.Streams.{on_caps, admit_all, admit}
use tightbeam.Cut.Ending.{session_cut-denylist}

abbrev slip : Cap
slip = record { root = 4; revocation_ids = 10 ∷ 11 ∷ []; valid_until = ok (some 100) }

abbrev badge : Cap
badge = record { root = 5; revocation_ids = 11 ∷ 12 ∷ []; valid_until = ok none }

abbrev unread : Cap
unread = record { root = 5; revocation_ids = []; valid_until = err tt }

abbrev kept_both : AdmittedChains
kept_both = keep 1 (slip ∷ badge ∷ []) (some 100) nothing_admitted

both_recorded : record_all 1 (slip ∷ badge ∷ []) nothing_admitted ≡ ok kept_both
unfolding record_all of_stream extend
both_recorded = refl

unread_refused : record_all 1 (slip ∷ unread ∷ []) nothing_admitted ≡ err unreadable_expiry
unfolding record_all of_stream
unread_refused = refl

both_admitted : admit_all (on_caps 1 (slip ∷ badge ∷ []) ∷ []) ≡ ok kept_both
unfolding admit_all admit
both_admitted = both_recorded

session_cut-denylist_example :
    session_cut (denylist (λ id. id == 12) (λ key. false)) (λ key. none) kept_both 50
    ≡ some recalled
session_cut-denylist_example =
    session_cut-denylist (on_caps 1 (slip ∷ badge ∷ []) ∷ []) kept_both 1 50 (λ id. id == 12)
      (λ key. false) (λ key. none) (refl, tt) both_admitted

late :
    session_cut (denylist (λ id. false) (λ key. false)) (λ key. none) kept_both 101 ≡ some expired
unfolding session_cut denylist peer_keys lapsed extend
late = refl

abbrev every_number : ℕ → Option ℕ
every_number key = some key
