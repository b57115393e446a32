-- ===== src/Tests/Forwards.antt =====
-- Ports that are forwarded.
use tightbeam.Base.{ℕ, ◌+◌, ◌≡◌, ◌↔◌, refl, Bool, true, false, some, List, [], ◌∷◌, arith}
use tightbeam.Protocol.Frames.{Refusal}
use tightbeam.Connector.{admitted, fails, turned_away, request, open_on}
use tightbeam.Forward.{
  Forward, closed, accepted, accept_failed, finished, Turn, forwards, run, ready, stops, refused,
  preflight, forward, started, accept_retry, without, connection_lost,
}
use tightbeam.Forward.Carried.{Kept, run-Kept}
use tightbeam.Forward.Probe.{preflight-forward}
use tightbeam.Tests.Frames.{few_details}
use tightbeam.Tests.Dials.{plain, announced_session}

-- Two connections come, the first is over, and an accept fails.
abbrev busy : List Turn
busy =
    record { now = 1; arm = accepted 7 }
    ∷ record { now = 2; arm = accepted 8 }
    ∷ record { now = 3; arm = finished 7 true }
    ∷ record { now = 4; arm = accept_failed }
    ∷ []

abbrev waiting : Forward
waiting = record { paused = true; retry = 4 + accept_retry; pipes = 8 ∷ [] }

busy-run : run busy (forwards started) ≡ some (forwards waiting)
unfolding run without
busy-run = refl

run-Kept_example : Kept busy started waiting
run-Kept_example = run-Kept busy started waiting (omega arith) busy-run

-- Nothing is accepted before the pause is over, and the session is lost.
abbrev losing : List Turn
losing = record { now = 5; arm = finished 8 false } ∷ record { now = 6; arm = closed } ∷ []

losing-run :
    run
      (record { now = 4; arm = accept_failed } ∷ losing)
      (forwards (record { paused = false; retry = 0; pipes = 8 ∷ [] }))
    ≡ some connection_lost
unfolding run without
losing-run = refl

preflight-forward_example :
    (preflight few_details plain
          (record { session = some announced_session; binds = true })
          (9 ∷ [])
        ≡ ready announced_session (request plain)
      ↔ (true ≡ true)
        × ((payload : List ℕ) × ((forward few_details announced_session
                (request plain)
                (9 ∷ [])).result
              ≡ admitted payload)))
    × ((refusal : Refusal Bool)
        → preflight few_details plain
              (record { session = some announced_session; binds = true })
              (9 ∷ [])
            ≡ stops (refused 7 refusal)
          ↔ (forward few_details announced_session (request plain) (9 ∷ [])).result
            ≡ fails (turned_away refusal))
    × (◌≡◌ {A = ℕ} 7 7
        → forward few_details announced_session (request plain) (9 ∷ [])
          ≡ open_on few_details plain announced_session (9 ∷ []))
preflight-forward_example = preflight-forward few_details plain announced_session true (9 ∷ []) refl
