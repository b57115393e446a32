-- ===== src/Expose/Warned.antt =====
-- What the command warns of.
use tightbeam.Base.{
  ℕ, ◌≡◌, refl, sym, subst, ap, ◌∙◌, Bool, true, false, Option, List, [], ◌∷◌, Bool-cases, inl, inr,
}
use tightbeam.Base.Bytes.{Text}
use tightbeam.Base.Results.{ok, step_ok, ok-injective, map_err, some_or, map_err-ok}
use tightbeam.Security.{Security, peer_proven}
use tightbeam.Grammar.{Spec, extend_parse}
use tightbeam.Gate.{Gates, no_root, unusable_key, prove_security, resolve_gate}
use tightbeam.Router.{Exposer, contains}
use tightbeam.Router.Interlocks.{Checked, prove-Checked}
use tightbeam.Router.Build.{Router, refusal, misspelt, new, parse, declare, expose}
use tightbeam.Router.Listing.{Metering, RawSource, names, manifest}
use tightbeam.Expose.{
  ExposeCmd, ungated, build, unproven, Line, expose_unsafe_warning, effective_gate, parse_names,
  with_unsafe, announced, run_expose,
}
use tightbeam.Expose.Risks.{warned, warned-manifest}

module _ (metering : Text → Metering) (raw_source : Text → RawSource) where
  module _ (gates : Gates) (terminal : Bool) (openable : Spec → Bool) where
    -- What the command's router asks for.
    record Asked (node_open : Bool) (typed : List Text) (router : Router) : Type 0 where
      same_node : router.node_open ≡ node_open
      no_public : router.public_request ≡ []
      unsafe_names : parse_names gates typed ≡ ok router.public_unsafe_request

    parse-Asked :
        (services : List Text) (node_open : Bool) (parsed : Router)
        → parse (gates.parse_service) terminal openable services (new node_open) ≡ ok parsed
        → Asked node_open [] parsed
    unfolding parse new parse_names
    parse-Asked services node_open parsed h =
        step_ok
          (map_err misspelt (extend_parse (gates.parse_service) terminal openable services [])) _ h
          (λ bound e h'.
            subst (Asked node_open []) (ok-injective h')
              (record { same_node = refl; no_public = refl; unsafe_names = refl }))

    with_unsafe-Asked :
        (typed : List Text) (node_open : Bool) (parsed router : Router)
        → Asked node_open [] parsed
        → with_unsafe gates terminal openable typed parsed ≡ ok router
        → Asked node_open typed router
    unfolding declare
    with_unsafe-Asked [] node_open parsed router k h = subst (Asked node_open []) (ok-injective h) k
    with_unsafe-Asked (n ∷ ns) node_open parsed router k h =
        step_ok (parse_names gates (n ∷ ns)) _ h (λ proper e h'.
          subst (Asked node_open (n ∷ ns)) (ok-injective h')
            (record { same_node = k.same_node; no_public = k.no_public; unsafe_names = e }))

    exposed_warned :
        (node_open : Bool) (typed : List Text) (router : Router) (exposer : Exposer) (name : Text)
        → Asked node_open typed router
        → expose router ≡ ok exposer
        → warned name (expose_unsafe_warning (manifest metering raw_source exposer))
          ≡ contains router.public_unsafe_request name
    unfolding expose
    exposed_warned node_open typed router exposer name k h =
        warned-manifest metering raw_source router.services router.node_open
          router.public_unsafe_request name exposer
          (subst
            (λ p. Checked router.services router.node_open p router.public_unsafe_request exposer)
            k.no_public
            (prove-Checked router.services router.node_open router.public_request
              router.public_unsafe_request exposer h))

    warned-announced :
        (cmd : ExposeCmd) (node : ℕ) (root : Option ℕ) (names : List Text) (exposer : Exposer)
        (name : Text)
        → cmd.quiet ≡ false
        → warned name
            (announced gates terminal openable metering raw_source cmd node root names exposer)
          ≡ warned name (expose_unsafe_warning (manifest metering raw_source exposer))
    warned-announced cmd node root names exposer name loud = rw (loud) refl

    -- A command that is not public has a rooted gate.
    resolved_wants :
        (root : Option ℕ) (revocations : gates.Revocations) (gate : gates.Gate)
        → resolve_gate gates root revocations ≡ ok gate
        → gates.wants_capability gate ≡ true
    unfolding resolve_gate
    resolved_wants root revocations gate h = step_ok (some_or no_root root) _ h (λ n e1 h1.
        step_ok (some_or unusable_key (gates.verify_key n)) _ h1 (λ key e2 h2.
          ap (gates.wants_capability) (sym (ok-injective h2)) ∙ gates.rooted_wants key revocations))

    gated_proven :
        (cmd : ExposeCmd) (root : Option ℕ) (revocations : gates.Revocations) (gate : gates.Gate)
        (security : Security) (u : Unit {0})
        → effective_gate gates cmd root revocations ≡ ok gate
        → prove_security gates gate security ≡ ok u
        → cmd.public ≡ false
        → peer_proven security ≡ true
    unfolding effective_gate prove_security
    gated_proven cmd root revocations gate security u h h' private =
        let wants : gates.wants_capability gate ≡ true =
          resolved_wants root revocations gate (map_err-ok ungated _ (rw (private) at h)) in
        elim (Bool-cases (peer_proven security)) [
          | inl proven ↦ proven
          | inr unproven_peer ↦ absurd (cc (rw (wants, unproven_peer) at h'))
        ]

    ran_warned :
        (cmd : ExposeCmd) (node : ℕ) (root : Option ℕ) (revocations : gates.Revocations)
        (security : Security) (gate : gates.Gate) (parsed router : Router) (exposer : Exposer)
        (u : Unit {0}) (lines : List Line)
        → effective_gate gates cmd root revocations ≡ ok gate
        → parse (gates.parse_service) terminal openable cmd.services (new cmd.public) ≡ ok parsed
        → with_unsafe gates terminal openable cmd.public_unsafe parsed ≡ ok router
        → expose router ≡ ok exposer
        → prove_security gates gate security ≡ ok u
        → announced gates terminal openable metering raw_source cmd node root
            (names router.services)
            exposer
          ≡ lines
        → (proper : List Text) × (parse_names gates cmd.public_unsafe ≡ ok proper)
          × (cmd.quiet ≡ false → (name : Text) → warned name lines ≡ contains proper name)
          × (cmd.public ≡ false → peer_proven security ≡ true)
    ran_warned cmd node root revocations security gate parsed router exposer u lines eg ep eu ee es
          done =
        let k =
          with_unsafe-Asked cmd.public_unsafe cmd.public parsed router
            (parse-Asked cmd.services cmd.public parsed ep) eu in
        (
          router.public_unsafe_request,
          k.unsafe_names,
          λ loud name.
              ap (warned name) (sym done)
              ∙ (warned-announced cmd node root (names router.services) exposer name loud
                  ∙ exposed_warned cmd.public cmd.public_unsafe router exposer name k ee),
          gated_proven cmd root revocations gate security u eg es,
        )

    -- What the command has printed when its exposer runs. Unless it is quiet, it warns of a service exactly
    -- when that is one of the names typed after `--public-unsafe`, each as it is spelled; and a command
    -- that is not public has a transport that proves its peers.
    pub run-warned :
        (cmd : ExposeCmd) (node : ℕ) (root : Option ℕ) (revocations : gates.Revocations)
        (security : Security) (lines : List Line) (e : Exposer)
        → run_expose gates terminal openable metering raw_source cmd node root revocations security
          ≡ ok (lines, e)
        → (proper : List Text) × (parse_names gates cmd.public_unsafe ≡ ok proper)
          × (cmd.quiet ≡ false → (name : Text) → warned name lines ≡ contains proper name)
          × (cmd.public ≡ false → peer_proven security ≡ true)
    unfolding run_expose
    run-warned cmd node root revocations security lines e h =
        step_ok (effective_gate gates cmd root revocations) _ h (λ gate eg h1.
          step_ok
            (map_err build
              (parse (gates.parse_service) terminal openable cmd.services (new cmd.public)))
            _ h1
            (λ parsed ep h2.
              step_ok (with_unsafe gates terminal openable cmd.public_unsafe parsed) _ h2
                (λ router eu h3.
                  step_ok (map_err (λ r. build (refusal r)) (expose router)) _ h3 (λ exposer ee h4.
                    step_ok (map_err unproven (prove_security gates gate security)) _ h4 (λ u es h5.
                      ran_warned cmd node root revocations security gate parsed router exposer u
                        lines eg (map_err-ok build _ ep) eu
                        (map_err-ok (λ r. build (refusal r)) _ ee) (map_err-ok unproven _ es)
                        (ap (λ x. x.0) (ok-injective h5)))))))
