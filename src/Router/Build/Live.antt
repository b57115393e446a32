-- ===== src/Router/Build/Live.antt =====
-- What the verbs of a router keep of its routes.
use tightbeam.Base.{
  ap, subst, ◌≡◌, refl, Bool, true, false, Option, List, [], ◌∷◌, any, same_bytes, Bool-cases, inl,
  inr,
}
use tightbeam.Base.Bytes.{Text}
use tightbeam.Base.Results.{Result, ok, err, step_ok, ok-injective, map_err, some_or}
use tightbeam.Policy.{PublicUse, never, opt_in, accepts, Origin, rooted, opened, proven}
use tightbeam.Router.{
  Target, handler, raw_stream, Access, family, member, proven_only, Route, Services, Refusal, bind,
  bind_gated,
}
use tightbeam.Grammar.{
  Misspelt, Spec, forward, file, fifo, stdin, echo, no_service, bad_name, split_once, target_of,
  validate_forward, extend_parse, entry_route, parse_fresh,
}
use tightbeam.Grammar.Entries.{parse_fresh-ok}
use tightbeam.Router.Build.{
  new, with_services, misspelt, Router, Verb, service_verb, member_verb, proven_verb, echo_verb,
  forward_verb, raw_stream_verb, parse_verb, public_verb, public_unsafe_verb, declare, declare_all,
}

-- The witnesses that an access class may let past: those of the base gate for a family, of those a
-- member's is rooted, and on a proven-only route the witness of a key.
abbrev pub lets_past : Access → Origin → Bool
lets_past family rooted = true
lets_past family opened = true
lets_past family Origin.proven = false
lets_past member rooted = true
lets_past member opened = false
lets_past member Origin.proven = false
lets_past proven_only Origin.proven = true
lets_past proven_only rooted = false
lets_past proven_only opened = false

-- The target can serve a stream that the access class lets past. A raw
-- stream asks its witness nothing, and stands on a family route.
abbrev pub IsLive : Access → Target → Type 0
IsLive access (handler exposure) =
    (origin : Origin) × (lets_past access origin ≡ true) × (accepts exposure origin ≡ true)
IsLive access (raw_stream openable) = access ≡ family

-- No name is taken twice, and no route is dead.
abbrev pub IsSound : Services → Type 0
IsSound [] = Unit {0}
IsSound (r ∷ rs) =
    (any (λ s. same_bytes s.name r.name) rs ≡ false) × IsLive r.access r.target × IsSound rs

bind-IsSound :
    (route : Route) (services after : Services)
    → IsLive route.access route.target
    → bind route services ≡ ok after
    → IsSound services
    → IsSound after
unfolding bind
bind-IsSound route services after live h s =
    elim (Bool-cases (any (λ r. same_bytes r.name route.name) services)) [
      | inl taken ↦ absurd (cc (rw (taken) at h))
      | inr free ↦
          let e : route ∷ services ≡ after = ok-injective (rw (free) at h) in
          subst IsSound e (free, live, s)
    ]

-- Whatever is bound behind a gate accepts what a root vouches for.
gated_live :
    (exposure : PublicUse) → accepts exposure Origin.proven ≡ false → accepts exposure rooted ≡ true
unfolding accepts
gated_live never h = refl
gated_live opt_in h = refl
gated_live PublicUse.proven_only h = absurd cc

bind_gated-IsSound :
    (name : Text) (exposure : PublicUse) (access : Access) (services after : Services)
    → lets_past access rooted ≡ true
    → bind_gated name exposure access services ≡ ok after
    → IsSound services
    → IsSound after
unfolding bind_gated
bind_gated-IsSound name exposure access services after gated h s =
    elim (Bool-cases (accepts exposure proven)) [
      | inl dead ↦ absurd (cc (rw (dead) at h))
      | inr alive ↦
          bind-IsSound (record { name = name; target = handler exposure; access = access }) services
            after (rooted, gated, gated_live exposure alive) (rw (alive) at h) s
    ]

with-IsSound :
    (router after : Router) (bound : Result Refusal Services)
    → ((services : Services) → bound ≡ ok services → IsSound services)
    → with_services router bound ≡ ok after
    → IsSound after.services
with-IsSound router after (err refused) keeps h = absurd cc
with-IsSound router after (ok services) keeps h =
    subst (λ r. IsSound r.services) (ok-injective h) (keeps services refl)

mapped :
    (r : Result Misspelt Services) {services : Services}
    → map_err misspelt r ≡ ok services
    → r ≡ ok services
mapped (err x) h = absurd cc
mapped (ok x) h = ap ok (ok-injective h)

module _ (parse_service : Text → Option Text) (terminal : Bool) (openable : Spec → Bool) where
  target_of-IsLive : (b : Bool) (spec : Spec) → IsLive family (target_of b spec)
  unfolding accepts
  target_of-IsLive b (forward addr) = (rooted, refl, refl)
  target_of-IsLive b (file path) = refl
  target_of-IsLive b (fifo path lossy) = refl
  target_of-IsLive b (stdin lossy) = refl
  target_of-IsLive b echo = (rooted, refl, refl)

  extend_parse-IsSound :
      (entries : List Text) (services after : Services)
      → extend_parse parse_service terminal openable entries services ≡ ok after
      → IsSound services
      → IsSound after
  unfolding extend_parse
  extend_parse-IsSound [] services after h s = subst IsSound (ok-injective h) s
  extend_parse-IsSound (entry ∷ entries) services after h s =
      step_ok (some_or no_service (split_once b'=' entry)) _ h (λ pair e1 h1.
        step_ok (some_or bad_name (parse_service pair.0)) _ h1 (λ checked e2 h2.
          step_ok (parse_fresh terminal (any (λ r. same_bytes r.name pair.0) services) pair.1) _ h2
            (λ spec e3 h3.
              let (free, _) = parse_fresh-ok terminal _ pair.1 spec e3 in
              extend_parse-IsSound entries
                (entry_route parse_service terminal openable pair.0 spec ∷ services) after h3
                (free, target_of-IsLive (openable spec) spec, s))))

  declare-IsSound :
      (v : Verb parse_service terminal openable) (router after : Router)
      → declare parse_service terminal openable v router ≡ ok after
      → IsSound router.services
      → IsSound after.services
  unfolding declare accepts
  declare-IsSound (service_verb name exposure) router after h s =
      with-IsSound router after (bind_gated name exposure family router.services)
        (λ services e. bind_gated-IsSound name exposure family router.services services refl e s) h
  declare-IsSound (member_verb name exposure) router after h s =
      with-IsSound router after (bind_gated name exposure member router.services)
        (λ services e. bind_gated-IsSound name exposure member router.services services refl e s) h
  declare-IsSound (proven_verb name) router after h s =
      with-IsSound router after _
        (λ services e. bind-IsSound _ router.services services (proven, refl, refl) e s) h
  declare-IsSound (echo_verb name) router after h s =
      with-IsSound router after (bind_gated name opt_in family router.services)
        (λ services e. bind_gated-IsSound name opt_in family router.services services refl e s) h
  declare-IsSound (forward_verb name addr) router after h s =
      elim (Bool-cases (validate_forward addr)) [
        | inr bad ↦ absurd (cc (rw (bad) at h))
        | inl good ↦
            with-IsSound router after (bind_gated name opt_in family router.services)
              (λ services e.
                bind_gated-IsSound name opt_in family router.services services refl e s)
              (rw (good) at h)
      ]
  declare-IsSound (raw_stream_verb name b) router after h s =
      with-IsSound router after _ (λ services e. bind-IsSound _ router.services services refl e s) h
  declare-IsSound (parse_verb entries) router after h s =
      step_ok
        (map_err misspelt (extend_parse parse_service terminal openable entries router.services)) _
        h
        (λ services e h'.
          subst (λ r. IsSound r.services) (ok-injective h')
            (extend_parse-IsSound entries router.services services (mapped _ e) s))
  declare-IsSound (public_verb names) router after h s =
      subst (λ r. IsSound r.services) (ok-injective h) s
  declare-IsSound (public_unsafe_verb names) router after h s =
      subst (λ r. IsSound r.services) (ok-injective h) s

  declare_all-IsSound :
      (vs : List (Verb parse_service terminal openable)) (router after : Router)
      → declare_all parse_service terminal openable vs router ≡ ok after
      → IsSound router.services
      → IsSound after.services
  unfolding declare_all
  declare_all-IsSound [] router after h s = subst (λ r. IsSound r.services) (ok-injective h) s
  declare_all-IsSound (v ∷ vs) router after h s =
      step_ok (declare parse_service terminal openable v router) _ h
        (λ next e h'. declare_all-IsSound vs next after h' (declare-IsSound v router next e s))

  -- Whatever row of verbs declares a router, no name has two routes, and no route is dead: the handler
  -- behind it accepts a witness that the route's access class lets past.
  pub declare_all-new-IsSound :
      (vs : List (Verb parse_service terminal openable)) (node_open : Bool) (after : Router)
      → declare_all parse_service terminal openable vs (new node_open) ≡ ok after
      → IsSound after.services
  unfolding new
  declare_all-new-IsSound vs node_open after h = declare_all-IsSound vs (new node_open) after h tt
