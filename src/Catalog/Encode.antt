-- ===== src/Catalog/Encode.antt =====
-- Which catalogs the encoder takes, and how long what it sends is.
use tightbeam.Base.{
  ℕ, ◌+◌, ◌*◌, ◌≤◌, ◌≡◌, ◌↔◌, refl, ap, ◌∙◌, List, [], ◌∷◌, ◌++◌, length, ltb, arith, All,
  length-append, le→ltb, Bool-cases, ltb→le, inl, inr,
}
use tightbeam.Base.Bytes.{be32}
use tightbeam.Base.Results.{ok, step_ok}
use tightbeam.Catalog.{
  tag, ServiceCatalog, ServiceEntry, encode, sized_from, entry_bytes, entries_bytes,
  count_prefix_len, entry_overhead_len, max_service_name_len, max_catalog_entries, max_catalog_blob,
}

abbrev pub ShortName : ServiceEntry → Type 0
ShortName e = length e.name ≤ max_service_name_len

-- The bounds of the wire.
pub record IsWithin (c : ServiceCatalog) : Type 0 where
  pub few : length c ≤ max_catalog_entries
  pub short : All ShortName c

abbrev pub catalog_bytes : ServiceCatalog → List ℕ
catalog_bytes c = be32 (length c) ++ entries_bytes c

pub length-entry_bytes :
    (e : ServiceEntry) → length (entry_bytes e) ≡ entry_overhead_len + length e.name
unfolding entry_bytes
length-entry_bytes e = omega (arith, length-append e.name (tag e.posture ∷ []))

sized_from-short :
    (size : ℕ) (c : ServiceCatalog)
    → All ShortName c
    → sized_from size c ≡ ok (size + length (entries_bytes c))
unfolding sized_from entries_bytes
sized_from-short size [] h = ap ok (omega arith)
sized_from-short size (e ∷ es) h = rw (le→ltb max_service_name_len (length e.name) h.0) (
    sized_from-short (size + (entry_overhead_len + length e.name)) es h.1
    ∙ ap ok (omega (arith, length-entry_bytes e, length-append (entry_bytes e) (entries_bytes es))))

short-of-sized_from : (size n : ℕ) (c : ServiceCatalog) → sized_from size c ≡ ok n → All ShortName c
unfolding sized_from
short-of-sized_from size n [] h = tt
short-of-sized_from size n (e ∷ es) h =
    elim (Bool-cases (ltb max_service_name_len (length e.name))) [
      | inl long ↦ cc (rw long at h)
      | inr short ↦ (
        ltb→le max_service_name_len (length e.name) short,
        short-of-sized_from (size + (entry_overhead_len + length e.name)) n es (rw short at h),
      )
    ]

pub encode-ok : (c : ServiceCatalog) → IsWithin c → encode c ≡ ok (catalog_bytes c)
unfolding encode
encode-ok c w =
    rw (le→ltb max_catalog_entries (length c) w.few, sized_from-short count_prefix_len c w.short)
      refl

pub encode-eq-ok :
    (c : ServiceCatalog) (bs : List ℕ) → encode c ≡ ok bs → IsWithin c × (bs ≡ catalog_bytes c)
unfolding encode
encode-eq-ok c bs h = elim (Bool-cases (ltb max_catalog_entries (length c))) [
  | inl many ↦ cc (rw many at h)
  | inr few ↦ step_ok (sized_from count_prefix_len c) _ (rw few at h) (λ n e e'. (
    record {
      few = ltb→le max_catalog_entries (length c) few;
      short = short-of-sized_from count_prefix_len n c e;
    },
    cc,
  ))
]

entries-bound :
    (c : ServiceCatalog)
    → All ShortName c
    → length (entries_bytes c) ≤ length c * (entry_overhead_len + max_service_name_len)
unfolding entries_bytes
entries-bound [] h = omega arith
entries-bound (e ∷ es) h = omega (
  arith,
  entries-bound es h.1,
  length-entry_bytes e,
  length-append (entry_bytes e) (entries_bytes es),
)

pub encode_bound : (c : ServiceCatalog) → IsWithin c → length (catalog_bytes c) ≤ max_catalog_blob
encode_bound c w = grind (arith, entries-bound c w.short, w.few)

-- The encoder takes exactly the catalogs within the wire's two bounds, and what it sends is never
-- longer than the bound that a reader allocates by.
encode_iff :
    (c : ServiceCatalog)
    → (IsWithin c ↔ ((bs : List ℕ) × (encode c ≡ ok bs) × (length bs ≤ max_catalog_blob)))
encode_iff c =
    (λ w. (catalog_bytes c, encode-ok c w, encode_bound c w), λ (bs, e, _). (encode-eq-ok c bs e).0)
