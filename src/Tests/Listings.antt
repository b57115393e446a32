-- ===== src/Tests/Listings.antt =====
-- What nodes say of their services, and routers that are declared.
use tightbeam.Base.{◌≡◌, refl, true, false, some, List, [], ◌∷◌, ◌++◌, same_bytes}
use tightbeam.Base.Order.{leb_text, sort_by}
use tightbeam.Base.Results.{ok, err}
use tightbeam.Security.{peer_proven}
use tightbeam.Policy.{never, opt_in, accepts}
use tightbeam.Policy
use tightbeam.Cut.{nothing_admitted}
use tightbeam.Catalog.{gated, opened}
use tightbeam.Router.{handler, family, member, proven_only, bind_gated, dead_proven_route, posture}
use tightbeam.Router.Build.{
  Router, Verb, service_verb, member_verb, proven_verb, parse_verb, declare_all, new, refusal,
}
use tightbeam.Router.Build.Live.{IsSound, declare_all-new-IsSound}
use tightbeam.Router.Listing.{catalog, router_catalog}
use tightbeam.Router.Listing.Postures.{listed}
use tightbeam.Grammar.{echo_word, extend_parse}
use tightbeam.Dispatch.{resolve_single_service}
use tightbeam.Dispatch.Listed.{served-listed}
use tightbeam.Tests.Frames.{few_details}
use tightbeam.Tests.Rules.{four, four_exposed, four_proved}
use tightbeam.Tests.Hosts.{counters, small_gates, small_host, all_free}
use tightbeam.Tests.Admission.{stranger, no_token, open_admitted, download_ready, download_served}

-- The four routes, the download and the file opened by the overlays.
four_listed :
    router_catalog four false ((b'd' ∷ []) ∷ []) ((b'f' ∷ []) ∷ []) (some (b'c' ∷ []))
    ≡ record { name = b'c' ∷ []; posture = gated }
      ∷ record { name = b'd' ∷ []; posture = opened }
      ∷ record { name = b'f' ∷ []; posture = opened }
      ∷ record { name = b'p' ∷ []; posture = gated }
      ∷ record { name = b's' ∷ []; posture = gated }
      ∷ []
unfolding router_catalog sort_by posture leb_text same_bytes
four_listed = refl

served-listed_example :
    listed (b'd' ∷ []) (catalog four false ((b'd' ∷ []) ∷ []) ((b'f' ∷ []) ∷ [])) ≡ some opened
unfolding peer_proven resolve_single_service same_bytes
served-listed_example =
    served-listed small_gates counters few_details 0 small_host stranger no_token (b'd' ∷ [])
      (some nothing_admitted) all_free false ((b'd' ∷ []) ∷ []) ((b'f' ∷ []) ∷ []) four_exposed
      open_admitted download_ready four_proved refl refl refl refl download_served

-- A shell, an echo in an entry, and a service for proven keys.
abbrev verbs : List (Verb (λ name. some name) false (λ spec. true))
verbs =
    member_verb (b's' ∷ []) never
    ∷ parse_verb ((b'e' ∷ b'=' ∷ echo_word ++ b':' ∷ []) ∷ [])
    ∷ proven_verb (b'p' ∷ [])
    ∷ []

abbrev declared : Router
declared = record {
  services =
      record { name = b'p' ∷ []; target = handler Policy.proven_only; access = proven_only }
      ∷ record { name = b'e' ∷ []; target = handler opt_in; access = family }
      ∷ record { name = b's' ∷ []; target = handler never; access = member }
      ∷ [];
  public_request = [];
  public_unsafe_request = [];
  node_open = false;
}

verbs_declared :
    declare_all (λ name. some name) false (λ spec. true) verbs (new false) ≡ ok declared
unfolding declare_all bind_gated accepts new extend_parse same_bytes
verbs_declared = refl

declare_all-new-IsSound_example : IsSound declared.services
declare_all-new-IsSound_example =
    declare_all-new-IsSound (λ name. some name) false (λ spec. true) verbs false declared
      verbs_declared

dead_route :
    declare_all
      (λ name. some name)
      false
      (λ spec. true)
      (service_verb (b'p' ∷ []) Policy.proven_only ∷ [])
      (new false)
    ≡ err (refusal dead_proven_route)
unfolding declare_all bind_gated accepts
dead_route = refl
