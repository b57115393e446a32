-- ===== src/Tests/Admission.antt =====
-- Streams served and refused by the hosts of tightbeam.Tests.Hosts.
use tightbeam.Base.{
  ℕ, ◌*◌, ◌≤◌, ◌≡◌, refl, ◌⊎◌, true, false, none, some, List, [], ◌∷◌, same_bytes, arith, ◌^◌, ◌==◌,
  ◌↔◌,
}
use tightbeam.Base.Results.{ok}
use tightbeam.Security.{announced, in_process, peer_proven}
use tightbeam.Policy.{never, opt_in, opened, rooted, accepts}
use tightbeam.Cut.{AdmittedChains, nothing_admitted, record_all, recalled, session_cut, denylist}
use tightbeam.Router.{Route, get}
use tightbeam.Router.Interlocks.{may_open}
use tightbeam.Protocol.Request.{Request}
use tightbeam.Base.Bytes.{Text}
use tightbeam.Protocol.Frames.{not_admitted}
use tightbeam.Permits.{new_pools, give_back, public_stream}
use tightbeam.Gate.{wire_refusal, peer_not_proven}
use tightbeam.Admit.{SessionPeer, Presented, AdmittedStream, admit, admit_gated}
use tightbeam.Contract.{mint}
use tightbeam.Dispatch.{
  Ready, prepared, served, refused, serve_service, serve_request, resolve_single_service,
  ReadOutcome, arrived,
}
use tightbeam.Dispatch.Faced.{served-may_open}
use tightbeam.Dispatch.Recalled.{served-recalled}
use tightbeam.Dispatch.Refusals.{ReadRefused, refused-uniform}
use tightbeam.Dispatch.Refused.{ServiceRefused}
use tightbeam.Dispatch.Blind.{refused-blind, answered}
use tightbeam.Dispatch.Returned.{Returned}
use tightbeam.Traffic.{
  serve_prepared, serve_until, polled_read, polled_write, wrote, dropped, finished, watched,
}
use tightbeam.Traffic.Silence.{IsOverdue, serve_until-dropped}
use tightbeam.Cut.Streams.{Stream, admit_more}
use tightbeam.Session
use tightbeam.Session.{
  Session, Served, Reach, start, later, connects, within, Step, ends, reading, serving, rules, Pipe,
  sweeps, breaks, may_sweep,
}
use tightbeam.Session.Capacity.{Accounted, Reach-Accounted}
use tightbeam.Session.Draining.{done, next, cost, Run-bounded}
use tightbeam.Tests.Frames.{few_details}
use tightbeam.Tests.Rules.{four, four_exposed, four_proved}
use tightbeam.Tests.Hosts.{counters, small_gates, small_admission, small_host, bare_host, all_free}

-- A stranger over a transport that proves nothing, with no token.
abbrev pub stranger : SessionPeer
stranger = record { node = 5; security = record { peer = announced } }

abbrev pub no_token : Presented
no_token = record { capability = none; membership = none }

abbrev pub open_admitted : AdmittedStream small_gates counters
open_admitted = record {
  witness = record { origin = opened; member = false; key = 5 };
  peer = 5;
  ruled = [];
  proven = none;
  stream_permit = some public_stream;
}

abbrev pub download_ready : Ready small_gates counters few_details
download_ready = prepared opt_in (record { origin = opened; member = false; key = 5 })

pub download_served :
    (serve_service small_gates counters few_details 0 small_host stranger no_token
      (b'd' ∷ [])
      (some nothing_admitted)
      all_free).outcome
    ≡ served open_admitted download_ready
unfolding serve_service admit same_bytes resolve_single_service accepts record_all mint
download_served = refl

served-may_open_example :
    (route : Route) × (get four (b'd' ∷ []) ≡ some route)
    × (may_open false route.target route.access ≡ true)
unfolding same_bytes resolve_single_service peer_proven
served-may_open_example =
    served-may_open small_gates counters few_details 0 small_host stranger no_token (b'd' ∷ [])
      (some nothing_admitted) all_free false ((b'd' ∷ []) ∷ []) ((b'f' ∷ []) ∷ []) four_exposed
      open_admitted download_ready four_proved refl refl refl refl download_served

shell_answer :
    (serve_service small_gates counters few_details 0 small_host stranger no_token
      (b's' ∷ [])
      none
      all_free).outcome
    ≡ refused not_admitted
unfolding serve_service admit same_bytes wire_refusal resolve_single_service peer_proven
shell_answer = refl

download_ruled :
    admit small_gates counters 0 small_admission stranger no_token (b'd' ∷ []) all_free ≡ (
      record { pools = record { sessions = 31; streams = 3; proven = 8 }; held = true },
      ok open_admitted,
    )
unfolding admit same_bytes
download_ruled = refl

asked_shell :
    (serve_request small_gates counters few_details
      (λ v. v)
      (λ t. t)
      0
      small_host
      stranger
      (arrived (record { service = b's' ∷ []; capability = none; membership = none }))
      none
      all_free).outcome
    ≡ refused not_admitted
unfolding serve_request
asked_shell = shell_answer

refused-uniform_example :
    ReadRefused small_gates counters few_details
      (λ v. v)
      (λ t. t)
      (arrived (record { service = b's' ∷ []; capability = none; membership = none }))
      not_admitted
    ⊎ ((request : Request) × (service : Text) × (arrived
            (record { service = b's' ∷ []; capability = none; membership = none })
          ≡ arrived request)
        × (small_gates.parse_service request.service ≡ some service)
        × ServiceRefused small_gates counters few_details 0 small_host stranger
            (record { capability = request.capability; membership = request.membership })
            service
            none
            all_free
            not_admitted)
refused-uniform_example =
    refused-uniform small_gates counters few_details (λ v. v) (λ t. t) 0 small_host stranger
      (arrived (record { service = b's' ∷ []; capability = none; membership = none })) none all_free
      not_admitted asked_shell

refused-blind_example :
    answered small_gates counters few_details 0 small_host stranger no_token
      (b's' ∷ [])
      none
      all_free
    ≡ answered small_gates counters few_details 9 bare_host stranger no_token
        (b's' ∷ [])
        (some nothing_admitted)
        all_free
unfolding same_bytes resolve_single_service admit_gated peer_proven
refused-blind_example =
    refused-blind small_gates counters few_details 0 9 small_host bare_host stranger no_token
      (b's' ∷ []) (b's' ∷ []) none (some nothing_admitted) all_free all_free
      (peer_not_proven announced) refl refl (refl, refl) (refl, refl) refl refl

-- A member over a transport in the same process, with the token whose revocation id is 9.
abbrev relative : SessionPeer
relative = record { node = 5; security = record { peer = in_process } }

abbrev one_token : Presented
one_token = record { capability = some (b'c' ∷ []); membership = none }

abbrev shell_admitted : AdmittedStream small_gates counters
shell_admitted = record {
  witness = record { origin = rooted; member = true; key = 5 };
  peer = 5;
  ruled = record { root = 7; revocation_ids = 9 ∷ []; valid_until = ok none } ∷ [];
  proven = none;
  stream_permit = none;
}

abbrev shell_ready : Ready small_gates counters few_details
shell_ready = prepared never (record { origin = rooted; member = true; key = 5 })

shell_served :
    (serve_service small_gates counters few_details 0 small_host relative one_token
      (b's' ∷ [])
      (some nothing_admitted)
      all_free).outcome
    ≡ served shell_admitted shell_ready
unfolding serve_service admit same_bytes resolve_single_service accepts record_all peer_proven mint
shell_served = refl

served-recalled_example :
    (record_ : AdmittedChains) × ((serve_service small_gates counters few_details 0 small_host
        relative one_token
        (b's' ∷ [])
        (some nothing_admitted)
        all_free).chains
      ≡ some record_)
    × ((since : List Stream) (after : AdmittedChains)
        → admit_more since record_ ≡ ok after
        → session_cut (denylist (λ x. x == 9) (λ x. false)) (λ x. some x) after 3 ≡ some recalled)
unfolding same_bytes resolve_single_service
served-recalled_example =
    served-recalled small_gates counters few_details 0 small_host relative one_token (b's' ∷ [])
      nothing_admitted all_free (b'c' ∷ []) (b'c' ∷ []) shell_admitted shell_ready (λ x. x == 9)
      (λ x. false) (λ x. some x) 3 (refl, refl) refl refl refl shell_served refl

abbrev ask_shell : ReadOutcome
ask_shell = arrived (record { service = b's' ∷ []; capability = none; membership = none })

-- A session is taken, a stream opens in it, and is admitted to the download.
abbrev downloading : Session
downloading = record { held = true; accepting = true; pipes = serving (some public_stream) ∷ [] }

one_stream : Reach small_gates counters (record {
  pools = record { sessions = 31; streams = 3; proven = 8 };
  sessions = downloading ∷ [];
})
unfolding new_pools
one_stream =
    later
      (later (later start (connects (omega arith))) (within [] [] (Session.accepts (omega arith))))
      (within [] [] (
        rules [] [] 0 small_admission stranger no_token (b'd' ∷ [])
          (
            record { pools = record { sessions = 31; streams = 3; proven = 8 }; held = true },
            ok open_admitted,
          )
          download_ruled))

Reach-Accounted_example : Accounted small_gates counters (record {
  pools = record { sessions = 31; streams = 3; proven = 8 };
  sessions = downloading ∷ [];
})
Reach-Accounted_example = Reach-Accounted small_gates counters one_stream

-- The same session once its peer has gone.
abbrev gone : Served small_gates counters
gone = record {
  pools = record { sessions = 31; streams = 3; proven = 8 };
  session = record { held = true; accepting = false; pipes = serving (some public_stream) ∷ [] };
}

abbrev over : Served small_gates counters
over = record {
  pools = record { sessions = 31; streams = 4; proven = 8 };
  session = record { held = true; accepting = false; pipes = [] };
}

Run-bounded_example :
    (1 ≤ 2 * 1)
    × (((◌≡◌ {A = List Pipe} [] []) × (breaks (over.session) ≡ true))
        ⊎ ((u : Served small_gates counters) × (step : Step small_gates counters over u) × (cost
                small_gates counters step
              ≡ 1)))
unfolding give_back may_sweep
Run-bounded_example =
    Run-bounded small_gates counters {s = gone} {t = over}
      (next (sweeps gone refl) (next (ends [] [] (serving (some public_stream))) done)) refl

-- A proven-only stream that still moves bytes past its five seconds.
serve_until-dropped_example :
    (serve_until
        (some (5 * 10 ^ 9))
        (record { instant = 1; poll = polled_read 3 4 } ∷ [])
        (some (6 * 10 ^ 9))
      ≡ dropped)
    ↔ (((true ≡ false) × (◌≡◌ {A = ℕ} 1 0)) ⊎ IsOverdue (some (5 * 10 ^ 9)) (some (6 * 10 ^ 9)))
serve_until-dropped_example =
    serve_until-dropped (some (5 * 10 ^ 9)) (record { instant = 1; poll = polled_read 3 4 } ∷ [])
      (some (6 * 10 ^ 9))

proven_dropped :
    serve_until
      (some (5 * 10 ^ 9))
      (record { instant = 1; poll = polled_read 3 4 } ∷ [])
      (some (6 * 10 ^ 9))
    ≡ dropped
unfolding serve_until
proven_dropped = refl

-- A peer that only ends its own half, and a greeter that speaks first.
half_closed_dropped :
    serve_until none
      (record { instant = 1; poll = polled_read 3 3 }
        ∷ record { instant = 11 * 10 ^ 9; poll = polled_write (wrote 20) }
        ∷ [])
      none
    ≡ dropped
unfolding serve_until serve_prepared watched
half_closed_dropped = refl

greeter_served :
    serve_prepared (record { instant = 5 * 10 ^ 9; poll = polled_write (wrote 20) } ∷ []) none
    ≡ finished
unfolding serve_prepared watched
greeter_served = refl
