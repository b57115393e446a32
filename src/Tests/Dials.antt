-- ===== src/Tests/Dials.antt =====
-- Dials that reach the hosts of tightbeam.Tests.Hosts.
use tightbeam.Base.{ℕ, ◌≡◌, refl, inl, true, none, some, List, [], ◌∷◌, ◌++◌, arith, same_bytes}
use tightbeam.Base.Bytes.{is_utf8}
use tightbeam.Base.Stream.{Outcome}
use tightbeam.Security.{in_process, announced, peer_proven}
use tightbeam.Policy.{accepts}
use tightbeam.Protocol.Frames.{write_str, write_opt}
use tightbeam.Protocol.Request.{read, presents_credential, write, write_checked}
use tightbeam.Protocol.Response
use tightbeam.Protocol.Response.{accepted}
use tightbeam.Admit.{SessionPeer, admit}
use tightbeam.Contract.{mint}
use tightbeam.Dispatch.{arrived, serve_request, resolve_single_service}
use tightbeam.Connector.{Connector, Session, request, open_on}
use tightbeam.Connector.Exchange.{heard, verdict, open_on-serve_request}
use tightbeam.Tests.Frames.{few_details, ask_bytes}
use tightbeam.Tests.Hosts.{counters, small_gates, small_host, all_free}

-- The download, asked for by a stranger without a credential.
abbrev pub plain : Connector
plain = record { dial = 7; service = b'd' ∷ []; capability = none; membership = none }

abbrev pub announced_session : Session
announced_session = record { peer = 7; security = record { peer = announced }; opens = true }

abbrev stranger : SessionPeer
stranger = record { node = 5; security = record { peer = announced } }

open_on-serve_request_example :
    (sent : List ℕ) × (bytes : List ℕ) × (heard (read sent) ≡ arrived (request plain))
    × (Response.write few_details accepted [] ≡ Outcome.ok tt bytes)
    × (open_on few_details plain announced_session (bytes ++ 9 ∷ [])
        ≡ record { sent = sent; result = verdict few_details accepted (9 ∷ []) })
unfolding serve_request request presents_credential same_bytes is_utf8 admit accepts
    resolve_single_service mint
open_on-serve_request_example =
    open_on-serve_request small_gates counters few_details (λ v. v) (λ t. t) plain announced_session
      0 small_host stranger none all_free accepted (9 ∷ []) refl refl (inl refl)
      (record { service = refl; capability = tt; membership = tt })
      (record { service = omega arith; capability = tt; membership = tt }) refl

-- A connector that presents a token.
abbrev presenting : Connector
presenting = record {
  dial = 7;
  service = b'a' ∷ [];
  capability = some (b'c' ∷ []);
  membership = none;
}

abbrev proven_session : Session
proven_session = record { peer = 7; security = record { peer = in_process }; opens = true }

token_sent : (open_on few_details presenting proven_session []).sent ≡ ask_bytes
unfolding open_on write_checked write write_str write_opt presents_credential peer_proven
token_sent = refl

-- Over a session to another node, not a byte.
astray :
    (open_on few_details presenting
      (record { peer = 8; security = record { peer = in_process }; opens = true })
      []).sent
    ≡ []
unfolding open_on
astray = refl
