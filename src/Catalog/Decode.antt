-- ===== src/Catalog/Decode.antt =====
-- The decoder against the encoder, both ways.
use tightbeam.Base.{
  ℕ, ◌+◌, ◌^◌, ◌<◌, ◌≡◌, refl, ap, subst, List, [], ◌∷◌, ◌++◌, length, arith, All, length-append,
  append_assoc, le→ltb, true, append-nil,
}
use tightbeam.Base.Bytes.{be16, be32, be_value, be_value-be16, be_value-be32, is_utf8}
use tightbeam.Base.Results.{ok}
use tightbeam.Catalog.{
  tag, from_tag, Posture, gated, opened, ServiceCatalog, ServiceEntry, encode, decode, decode_entry,
  decode_entries, take_uint, entry_bytes, entries_bytes, max_service_name_len, max_catalog_entries,
}
use tightbeam.Catalog.Cursor.{At, At-move, take_at-At}
use tightbeam.Catalog.Encode.{
  IsWithin, ShortName, length-entry_bytes, encode_bound, catalog_bytes, encode-eq-ok,
}

-- A name is a Rust `String`.
abbrev pub NamedInUtf8 : ServiceEntry → Type 0
NamedInUtf8 e = is_utf8 e.name ≡ true

from_tag-tag : (p : Posture) → from_tag (be_value (tag p ∷ [])) ≡ ok p
unfolding from_tag tag
from_tag-tag gated = refl
from_tag-tag opened = refl

module _ (bytes : List ℕ) (small : length bytes < 2 ^ 64) where
  take_uint-At :
      (cursor : ℕ) (xs rest : List ℕ)
      → At bytes cursor (xs ++ rest)
      → take_uint (length xs) bytes cursor ≡ ok (be_value xs, cursor + length xs)
  unfolding take_uint
  take_uint-At cursor xs rest a = rw (take_at-At xs rest small a) refl

  decode_entry-At :
      (cursor : ℕ) (e : ServiceEntry) (rest : List ℕ)
      → ShortName e
      → NamedInUtf8 e
      → At bytes cursor (entry_bytes e ++ rest)
      → decode_entry bytes cursor ≡ ok (e, cursor + 2 + length e.name + 1)
        × At bytes (cursor + 2 + length e.name + 1) rest
  unfolding decode_entry entry_bytes
  decode_entry-At cursor e rest short utf8 a =
      let t : List ℕ = tag e.posture ∷ [] in
      let a0 : At bytes cursor (be16 (length e.name) ++ (e.name ++ (t ++ rest))) =
        rw (append_assoc e.name t rest) at a in
      let a1 : At bytes (cursor + 2) (e.name ++ (t ++ rest)) =
        At-move (be16 (length e.name)) (e.name ++ (t ++ rest)) a0 in
      let a2 : At bytes (cursor + 2 + length e.name) (t ++ rest) = At-move e.name (t ++ rest) a1 in
      (
        rw
            (
              take_uint-At cursor (be16 (length e.name)) (e.name ++ (t ++ rest)) a0,
              be_value-be16 (length e.name) (omega arith),
              le→ltb max_service_name_len (length e.name) short,
              take_at-At e.name (t ++ rest) small a1,
              utf8,
              take_uint-At (cursor + 2 + length e.name) t rest a2,
            )
            (rw (from_tag-tag e.posture) refl),
        At-move t rest a2,
      )

  decode_entries-At :
      (c : ServiceCatalog) (cursor : ℕ) (rest : List ℕ)
      → All ShortName c
      → All NamedInUtf8 c
      → At bytes cursor (entries_bytes c ++ rest)
      → decode_entries bytes (length c) cursor ≡ ok (c, cursor + length (entries_bytes c))
        × At bytes (cursor + length (entries_bytes c)) rest
  unfolding decode_entries entries_bytes
  decode_entries-At [] cursor rest short utf8 a =
      let e : cursor ≡ cursor + 0 = omega arith in
      (ap (λ k. ok ([], k)) e, subst (λ k. At bytes k rest) e a)
  decode_entries-At (e ∷ es) cursor rest short utf8 a =
      let a0 : At bytes cursor (entry_bytes e ++ (entries_bytes es ++ rest)) =
        rw (append_assoc (entry_bytes e) (entries_bytes es) rest) at a in
      let (d, a1) = decode_entry-At cursor e (entries_bytes es ++ rest) short.0 utf8.0 a0 in
      let next : ℕ = cursor + 2 + length e.name + 1 in
      let (d', a2) = decode_entries-At es next rest short.1 utf8.1 a1 in
      let size : next + length (entries_bytes es)
          ≡ cursor + length (entry_bytes e ++ entries_bytes es) =
        omega (arith, length-entry_bytes e, length-append (entry_bytes e) (entries_bytes es)) in
      (rw (d, d') (ap (λ k. ok (e ∷ es, k)) size), subst (λ k. At bytes k rest) size a2)

decode-catalog_bytes :
    (c : ServiceCatalog)
    → IsWithin c
    → All NamedInUtf8 c
    → length (catalog_bytes c) < 2 ^ 64
    → decode (catalog_bytes c) ≡ ok c
unfolding decode
decode-catalog_bytes c w utf8 small =
    let blob : List ℕ = catalog_bytes c in
    let a0 : At blob 0 (be32 (length c) ++ entries_bytes c) = record {
      inside = omega arith;
      ahead = refl;
    } in
    let a1 : At blob 4 (entries_bytes c ++ []) =
      rw (append-nil (entries_bytes c)) (At-move (be32 (length c)) (entries_bytes c) a0) in
    let (d, a2) = decode_entries-At blob small c 4 [] w.short utf8 a1 in
    rw
      (
        take_uint-At blob small 0 (be32 (length c)) (entries_bytes c) a0,
        be_value-be32 (length c) (omega arith),
        le→ltb max_catalog_entries (length c) w.few,
        d,
      )
      (ground arith)

-- What the encoder sends, the decoder reads back as the same catalog.
pub decode-encode :
    (c : ServiceCatalog) (bs : List ℕ) → All NamedInUtf8 c → encode c ≡ ok bs → decode bs ≡ ok c
decode-encode c bs utf8 h =
    let (w, e) = encode-eq-ok c bs h in
    rw e (decode-catalog_bytes c w utf8 (omega (arith, encode_bound c w)))
