-- ===== src/Router/Listing/Postures.antt =====
-- What the catalog and the manifest say of a name.
use tightbeam.Base.{
  suc, ◌≡◌, refl, sym, ap, ◌∙◌, Bool, ◌||◌, Option, none, some, List, [], ◌∷◌, any, map, length,
  if◌then◌else◌, same_bytes, Bool-cases, inl, inr,
}
use tightbeam.Base.Bytes.{Text}
use tightbeam.Base.Results.{ok}
use tightbeam.Base.Order.{
  sort_by, IsSorted, sort_by-IsSorted, sort_by_sorted, sort_by-map, any-sort_by, length-sort_by,
}
use tightbeam.Catalog.{Posture, ServiceEntry, ServiceCatalog}
use tightbeam.Router.{Services, Route, Exposer, posture, prove}
use tightbeam.Router.Listing.{
  Metering, RawSource, ManifestEntry, itself, entry_name, names, catalog, manifest_entry, manifest,
}
use tightbeam.Router.Interlocks.{prove_result}
use tightbeam.Router.Overlays.{same_bytes-eq}

-- The posture that a list of entries gives a name.
abbrev pub listed : Text → ServiceCatalog → Option Posture
listed name [] = none
listed name (e ∷ es) =
    let rest = listed name es in if same_bytes e.name name then some e.posture else rest

abbrev pub is_served : Text → Services → Bool
is_served name services = any (λ r. same_bytes r.name name) services

pub any-map :
    {A B : Type 0} (p : B → Bool) (f : A → B) (xs : List A)
    → any p (map f xs) ≡ any (λ x. p (f x)) xs
any-map p f [] = refl
any-map p f (x ∷ xs) = ap (λ b. p (f x) || b) (any-map p f xs)

length-map : {A B : Type 0} (f : A → B) (xs : List A) → length (map f xs) ≡ length xs
length-map f [] = refl
length-map f (x ∷ xs) = ap suc (length-map f xs)

module _ (services : Services) (node_open : Bool) (public public_unsafe : List Text) where
  abbrev entry : Text → ServiceEntry
  entry name = record { name = name; posture = posture node_open public public_unsafe name }

  -- The catalog sorts names that are sorted already.
  catalog_lem : catalog services node_open public public_unsafe ≡ map entry (names services)
  unfolding catalog names
  catalog_lem =
      sort_by-map entry_name entry (names services)
      ∙ ap (map entry) (
          sort_by_sorted itself (names services)
            (sort_by-IsSorted itself (map (λ r. r.name) services)))

  listed-map :
      (name : Text) (ns : List Text)
      → listed name (map entry ns) ≡ (
          if any (λ n. same_bytes n name) ns
          then some (posture node_open public public_unsafe name)
          else none)
  listed-map name [] = refl
  listed-map name (n ∷ ns) = elim (Bool-cases (same_bytes n name)) [
    | inl same ↦
        let e : n ≡ name = same_bytes-eq n name same in
        rw (same) (ap (λ t. some (posture node_open public public_unsafe t)) e)
    | inr other ↦ rw (other) (listed-map name ns)
  ]

  -- The catalog lists every served name once and in order, and no other, and says of it that it is open
  -- exactly when the gate is, or one of the overlays names it.
  pub catalog_lists :
      (name : Text)
      → (listed name (catalog services node_open public public_unsafe) ≡ (
          if is_served name services
          then some (posture node_open public public_unsafe name)
          else none))
        × IsSorted entry_name (catalog services node_open public public_unsafe)
        × (length (catalog services node_open public public_unsafe) ≡ length services)
  unfolding names catalog
  catalog_lists name = (lists, sorted, counted)
    where
      served : any (λ n. same_bytes n name) (names services) ≡ is_served name services
      served =
          any-sort_by itself (λ n. same_bytes n name) (map (λ r. r.name) services)
          ∙ any-map (λ n. same_bytes n name) (λ (r : Route). r.name) services

      lists : listed name (catalog services node_open public public_unsafe) ≡ (
          if is_served name services
          then some (posture node_open public public_unsafe name)
          else none)
      lists = rw (catalog_lem) (listed-map name (names services) ∙ rw (served) refl)

      sorted : IsSorted entry_name (catalog services node_open public public_unsafe)
      sorted = sort_by-IsSorted entry_name (map entry (names services))

      counted : length (catalog services node_open public public_unsafe) ≡ length services
      counted =
          ap length catalog_lem
          ∙ (length-map entry (names services)
              ∙ (length-sort_by itself (map (λ r. r.name) services)
                  ∙ length-map (λ (r : Route). r.name) services))

abbrev pub as_entry : ManifestEntry → ServiceEntry
as_entry m = record { name = m.name; posture = m.posture }

map-map :
    {A B C : Type 0} (g : B → C) (f : A → B) (xs : List A)
    → map g (map f xs) ≡ map (λ x. g (f x)) xs
map-map g f [] = refl
map-map g f (x ∷ xs) = ap (λ l. g (f x) ∷ l) (map-map g f xs)

module _ (metering : Text → Metering) (raw_source : Text → RawSource) where
  manifest_of :
      (e : Exposer)
      → map as_entry (manifest metering raw_source e)
        ≡ catalog e.services e.node_open e.public e.public_unsafe
  unfolding manifest names
  manifest_of e =
      sym (sort_by-map entry_name as_entry (map (manifest_entry metering raw_source e) e.services))
      ∙ (ap (sort_by entry_name) (
            map-map as_entry (manifest_entry metering raw_source e) e.services
            ∙ sym (
                map-map (entry e.services e.node_open e.public e.public_unsafe) (λ r. r.name)
                  e.services))
          ∙ (sort_by-map entry_name (entry e.services e.node_open e.public e.public_unsafe)
                (map (λ r. r.name) e.services)
              ∙ sym (catalog_lem e.services e.node_open e.public e.public_unsafe)))

  -- The manifest of an exposer, drawn from the overlays that were proved, says name for name what the
  -- catalog says, drawn from the overlays that were asked for.
  pub manifest-catalog :
      (services : Services) (node_open : Bool) (public public_unsafe : List Text) (e : Exposer)
      → prove services node_open public public_unsafe ≡ ok e
      → map as_entry (manifest metering raw_source e)
        ≡ catalog services node_open public public_unsafe
  manifest-catalog services node_open public public_unsafe e h =
      manifest_of e
      ∙ ap (λ x. catalog x.services x.node_open x.public x.public_unsafe)
          (prove_result services node_open public public_unsafe e h)
