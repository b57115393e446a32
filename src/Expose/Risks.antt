-- ===== src/Expose/Risks.antt =====
-- The raw streams that anyone may reach, in the warnings drawn from a manifest.
use tightbeam.Base.{
  ◌≡◌, refl, sym, ap, ◌∙◌, Bool, true, false, not, ◌&&◌, ◌||◌, Option, none, some, List, [], ◌∷◌,
  map, any, if◌then◌else◌, same_bytes, Bool-cases, inl, inr,
}
use tightbeam.Base.Bytes.{Text}
use tightbeam.Base.Order.{any-sort_by}
use tightbeam.Base.Results.{ok}
use tightbeam.Grammar.Words.{same_bytes_self}
use tightbeam.Catalog.{opened, gated}
use tightbeam.Router.{
  Target, handler, raw_stream, Route, Services, Exposer, get, contains, unsafe_found, unsafe_target,
  posture, is_raw_stream,
}
use tightbeam.Router.Overlays.{same_bytes-eq, contains-All, get-any-false, get-name}
use tightbeam.Router.Interlocks.{Checked}
use tightbeam.Router.Listing.{
  Metering, RawSource, ManifestEntry, names, kind, manifest_entry, manifest,
}
use tightbeam.Router.Listing.Postures.{any-map}
use tightbeam.Expose.{Line, banner, warning, is_opened, is_raw, expose_unsafe_warning}

abbrev pub is_warning : Text → Line → Bool
is_warning name (banner node names gate) = false
is_warning name (warning n risk) = same_bytes n name

-- Whether some line warns of a service.
abbrev pub warned : Text → List Line → Bool
warned name lines = any (is_warning name) lines

abbrev is_risky : Text → ManifestEntry → Bool
is_risky name m = (is_opened m.posture && is_raw m.kind) && same_bytes m.name name

warned-expose_unsafe_warning :
    (name : Text) (ms : List ManifestEntry)
    → warned name (expose_unsafe_warning ms) ≡ any (is_risky name) ms
unfolding expose_unsafe_warning
warned-expose_unsafe_warning name [] = refl
warned-expose_unsafe_warning name (m ∷ ms) =
    elim (Bool-cases (is_opened m.posture && is_raw m.kind)) [
      | inl risky ↦
          rw (risky) (ap (λ b. same_bytes m.name name || b) (warned-expose_unsafe_warning name ms))
      | inr safe ↦ rw (safe) (warned-expose_unsafe_warning name ms)
    ]

any-implies :
    (p q : Route → Bool) (rs : Services)
    → ((r : Route) → p r ≡ true → q r ≡ true)
    → any q rs ≡ false
    → any p rs ≡ false
any-implies p q [] h none_so = refl
any-implies p q (r ∷ rs) h none_so = elim (Bool-cases (p r)) [
  | inl is_so ↦ absurd (cc (rw (h r is_so) at none_so))
  | inr not_so ↦ elim (Bool-cases (q r)) [
    | inl q_so ↦ absurd (cc (rw (q_so) at none_so))
    | inr q_not ↦ rw (not_so) (any-implies p q rs h (rw (q_not) at none_so))
  ]
]

any-none : (p : Route → Bool) (rs : Services) → ((r : Route) → p r ≡ false) → any p rs ≡ false
any-none p [] h = refl
any-none p (r ∷ rs) h = rw (h r) (any-none p rs h)

-- The names of an overlay of raw streams are those of the raw streams that anyone may reach.
module _ (services : Services) (node_open : Bool) (public_unsafe : List Text) (name : Text) where
  abbrev at_risk : Route → Bool
  at_risk r =
      (is_opened (posture node_open [] public_unsafe r.name) && is_raw (kind r.target))
      && same_bytes r.name name

  posture_named :
      (n : Text)
      → contains public_unsafe n ≡ true
      → is_opened (posture node_open [] public_unsafe n) ≡ true
  unfolding posture
  posture_named n h = rw (h) (by_node node_open)
    where
      by_node : (b : Bool) → is_opened (if b || false || true then opened else gated) ≡ true
      by_node true = refl
      by_node false = refl

  posture_unnamed :
      (n : Text)
      → contains public_unsafe n ≡ false
      → is_opened (posture node_open [] public_unsafe n) ≡ node_open
  unfolding posture
  posture_unnamed n h = rw (h) (by_node node_open)
    where
      by_node : (b : Bool) → is_opened (if b || false || false then opened else gated) ≡ b
      by_node true = refl
      by_node false = refl

  at_risk_named :
      (r : Route)
      → contains public_unsafe name ≡ true
      → is_raw (kind r.target) ≡ true
      → r.name ≡ name
      → at_risk r ≡ true
  at_risk_named r named raw e = rw (e, posture_named name named, raw, same_bytes_self name) refl

  unsafe_raw : (t : Target) → unsafe_target t ≡ ok tt → is_raw (kind t) ≡ true
  unsafe_raw (handler exposure) h = absurd cc
  unsafe_raw (raw_stream openable) h = refl

  named_found :
      (found : Option Route)
      → get services name ≡ found
      → unsafe_found found ≡ ok tt
      → contains public_unsafe name ≡ true
      → any at_risk services ≡ true
  named_found none is h named = absurd cc
  named_found (some route) is h named = elim (Bool-cases (any at_risk services)) [
    | inl is_so ↦ is_so
    | inr none_so ↦
        let no_risk : at_risk route ≡ false =
          get-any-false at_risk services name route none_so is in
        let risk : at_risk route ≡ true =
          at_risk_named route named (unsafe_raw route.target h) (get-name services name route is) in
        absurd cc
  ]

  -- A route at risk is a raw stream, on a node that is open to anyone, under a name that is not listed.
  raw_of : (t : Target) → is_raw (kind t) ≡ true → is_raw_stream t ≡ true
  raw_of (handler exposure) h = absurd cc
  raw_of (raw_stream openable) h = refl

  and_parts : (a b c : Bool) → (a && b) && c ≡ true → (a ≡ true) × (b ≡ true) × (c ≡ true)
  and_parts true true true h = (refl, refl, refl)
  and_parts true true false h = absurd cc
  and_parts true false c h = absurd cc
  and_parts false b c h = absurd cc

  risk_unnamed :
      (r : Route)
      → contains public_unsafe name ≡ false
      → at_risk r ≡ true
      → (node_open ≡ true) × (is_raw_stream r.target && not (contains public_unsafe r.name) ≡ true)
  risk_unnamed r unnamed risk =
      let (shown, raw, same) =
        and_parts (is_opened (posture node_open [] public_unsafe r.name)) (is_raw (kind r.target))
          (same_bytes r.name name) risk in
      let e : r.name ≡ name = same_bytes-eq r.name name same in
      let free : contains public_unsafe r.name ≡ false = ap (contains public_unsafe) e ∙ unnamed in
      (sym (posture_unnamed r.name free) ∙ shown, rw (raw_of r.target raw, free) refl)

  unnamed_none :
      (e : Exposer)
      → Checked services node_open [] public_unsafe e
      → contains public_unsafe name ≡ false
      → any at_risk services ≡ false
  unnamed_none e c unnamed = elim (Bool-cases node_open) [
    | inl on ↦
        any-implies at_risk (λ r. is_raw_stream r.target && not (contains public_unsafe r.name))
          services (λ r risk. (risk_unnamed r unnamed risk).1) (rw (on) at c.no_raw)
    | inr off ↦ any-none at_risk services (λ r. elim (Bool-cases (at_risk r)) [
      | inl risk ↦ absurd (cc ((risk_unnamed r unnamed risk).0, off))
      | inr not_so ↦ not_so
    ])
  ]

  named_at_risk :
      (e : Exposer)
      → Checked services node_open [] public_unsafe e
      → any at_risk services ≡ contains public_unsafe name
  named_at_risk e c = elim (Bool-cases (contains public_unsafe name)) [
    | inl named ↦
        named_found (get services name) refl
          (contains-All (λ n. unsafe_found (get services n) ≡ ok tt) public_unsafe name c.all_unsafe
            named)
          named
        ∙ sym named
    | inr unnamed ↦ unnamed_none e c unnamed ∙ sym unnamed
  ]

module _ (metering : Text → Metering) (raw_source : Text → RawSource) where
  pub warned-manifest :
      (services : Services) (node_open : Bool) (public_unsafe : List Text) (name : Text)
      (e : Exposer)
      → Checked services node_open [] public_unsafe e
      → warned name (expose_unsafe_warning (manifest metering raw_source e))
        ≡ contains public_unsafe name
  unfolding manifest
  warned-manifest services node_open public_unsafe name e c =
      let built : Exposer = record {
        services = services;
        node_open = node_open;
        public = [];
        public_unsafe = public_unsafe;
      } in
      ap (λ x. warned name (expose_unsafe_warning (manifest metering raw_source x))) c.result
      ∙ (warned-expose_unsafe_warning name (manifest metering raw_source built)
          ∙ (any-sort_by (λ m. m.name) (is_risky name)
                (map (manifest_entry metering raw_source built) services)
              ∙ (any-map (is_risky name) (manifest_entry metering raw_source built) services
                  ∙ named_at_risk services node_open public_unsafe name e c)))
