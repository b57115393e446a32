-- ===== src/Catalog/Canonical.antt =====
-- The decoder accepts only what the encoder makes.
use tightbeam.Base.{
  ℕ, zero, suc, ◌≤◌, ◌≡◌, ◌↔◌, refl, sym, ap, subst, ◌∙◌, List, [], ◌∷◌, ◌++◌, length, arith, All,
  append_assoc, drop, true, append-nil,
}
use tightbeam.Base.Bytes.{be16, be32, be_value, is_utf8, AreBytes, Text}
use tightbeam.Base.Results.{ok, step_ok, ok-injective}
use tightbeam.Catalog.{
  tag, from_tag, Posture, gated, opened, ServiceCatalog, ServiceEntry, encode, decode, decode_entry,
  decode_entries, take_at, take_uint, checked_len, checked_name, checked_count, checked_end,
  entry_bytes, entries_bytes, max_service_name_len, max_catalog_entries,
}
use tightbeam.Catalog.Cursor.{Took, take_at-Took}
use tightbeam.Catalog.Encode.{IsWithin, ShortName, catalog_bytes, encode-ok}
use tightbeam.Catalog.Decode.{NamedInUtf8, decode-encode}
use tightbeam.Base.Lists.{drop_all}

All-drop : (n : ℕ) (xs : List ℕ) → AreBytes xs → AreBytes (drop n xs)
All-drop zero xs h = h
All-drop (suc n) [] h = tt
All-drop (suc n) (x ∷ xs) h = All-drop n xs h.1

All-prefix : (xs ys : List ℕ) → AreBytes (xs ++ ys) → AreBytes xs
All-prefix [] ys h = tt
All-prefix (x ∷ xs) ys h = (h.0, All-prefix xs ys h.1)

be16-be_value : (xs : List ℕ) → length xs ≡ 2 → AreBytes xs → be16 (be_value xs) ≡ xs
be16-be_value [] l h = absurd (omega arith)
be16-be_value (a ∷ []) l h = absurd (omega arith)
be16-be_value (a ∷ b ∷ []) l h = ground arith
be16-be_value (a ∷ b ∷ c ∷ xs) l h = absurd (omega arith)

be32-be_value : (xs : List ℕ) → length xs ≡ 4 → AreBytes xs → be32 (be_value xs) ≡ xs
be32-be_value [] l h = absurd (omega arith)
be32-be_value (a ∷ []) l h = absurd (omega arith)
be32-be_value (a ∷ b ∷ []) l h = absurd (omega arith)
be32-be_value (a ∷ b ∷ c ∷ []) l h = absurd (omega arith)
be32-be_value (a ∷ b ∷ c ∷ d ∷ []) l h = ground arith
be32-be_value (a ∷ b ∷ c ∷ d ∷ e ∷ xs) l h = absurd (omega arith)

tag-from_tag :
    (xs : List ℕ) (p : Posture) → length xs ≡ 1 → from_tag (be_value xs) ≡ ok p → xs ≡ tag p ∷ []
unfolding from_tag tag
tag-from_tag [] p l h = absurd (omega arith)
tag-from_tag (a ∷ []) gated l h = ground arith
tag-from_tag (a ∷ []) opened l h = ground arith
tag-from_tag (a ∷ b ∷ xs) p l h = absurd (omega arith)

checked_name_parts :
    (raw name : List ℕ) → checked_name raw ≡ ok name → (name ≡ raw) × (is_utf8 name ≡ true)
unfolding checked_name
checked_name_parts raw name h = ground arith

checked_len-le : (len : ℕ) (u : Unit {0}) → checked_len len ≡ ok u → len ≤ max_service_name_len
unfolding checked_len
checked_len-le len u h = ground arith

checked_count-le : (n : ℕ) (u : Unit {0}) → checked_count n ≡ ok u → n ≤ max_catalog_entries
unfolding checked_count
checked_count-le n u h = ground arith

-- The bytes from one cursor to the next, and the entry that they encode.
record Read (bytes : List ℕ) (cursor : ℕ) (e : ServiceEntry) (next : ℕ) : Type 0 where
  short : ShortName e
  utf8 : NamedInUtf8 e
  cut : drop cursor bytes ≡ entry_bytes e ++ drop next bytes

record ReadAll (bytes : List ℕ) (cursor count : ℕ) (c : ServiceCatalog) (next : ℕ) : Type 0 where
  size : length c ≡ count
  short : All ShortName c
  utf8 : All NamedInUtf8 c
  cut : drop cursor bytes ≡ entries_bytes c ++ drop next bytes

module _ (bytes : List ℕ) (real : AreBytes bytes) where
  Took-bytes :
      {cursor len : ℕ} {xs : List ℕ} {next : ℕ} → Took bytes cursor len xs next → AreBytes xs
  Took-bytes {cursor} {len} {xs} {next} t =
      All-prefix xs (drop next bytes) (subst AreBytes t.cut (All-drop cursor bytes real))

  checked_end_parts :
      (r : ServiceCatalog × ℕ) (c : ServiceCatalog)
      → checked_end bytes r ≡ ok c
      → (r.1 ≡ length bytes) × (r.0 ≡ c)
  unfolding checked_end
  checked_end_parts r c h = ground arith

  take_uint-Took :
      (width cursor v next : ℕ)
      → take_uint width bytes cursor ≡ ok (v, next)
      → (xs : List ℕ) × Took bytes cursor width xs next × (v ≡ be_value xs)
  unfolding take_uint
  take_uint-Took width cursor v next h =
      step_ok (take_at bytes cursor width) (λ t. ok (be_value t.0, t.1)) h
        (λ t e e'.
          let q : (be_value t.0, t.1) ≡ (v, next) = ok-injective e' in
          (
            t.0,
            subst (λ n. Took bytes cursor width t.0 n) (ap (λ k. k.1) q)
                (take_at-Took bytes cursor width t.0 t.1 e),
            sym (ap (λ k. k.0) q),
          ))

  entry_read :
      (cursor len c1 : ℕ) (raw : List ℕ) (c2 : ℕ) (name : Text) (t c3 : ℕ) (p : Posture)
      (u : Unit {0})
      → take_uint 2 bytes cursor ≡ ok (len, c1)
      → checked_len len ≡ ok u
      → take_at bytes c1 len ≡ ok (raw, c2)
      → checked_name raw ≡ ok name
      → take_uint 1 bytes c2 ≡ ok (t, c3)
      → from_tag t ≡ ok p
      → Read bytes cursor (record { name = name; posture = p }) c3
  unfolding entry_bytes
  entry_read cursor len c1 raw c2 name t c3 p u e1 e2 e3 e4 e5 e6 =
      let (xs, t1, v1) = take_uint-Took 2 cursor len c1 e1 in
      let t2 : Took bytes c1 len raw c2 = take_at-Took bytes c1 len raw c2 e3 in
      let (ts, t3, v3) = take_uint-Took 1 c2 t c3 e5 in
      let (same, utf8) = checked_name_parts raw name e4 in
      let name_size : length name ≡ len = ap length same ∙ t2.size in
      let head : xs ≡ be16 (length name) =
        sym (be16-be_value xs t1.size (Took-bytes t1)) ∙ ap be16 (sym v1 ∙ sym name_size) in
      let last : ts ≡ tag p ∷ [] =
        tag-from_tag ts p t3.size (subst (λ k. from_tag k ≡ ok p) v3 e6) in
      record {
        short = subst (λ k. k ≤ max_service_name_len) (sym name_size) (checked_len-le len u e2);
        utf8 = utf8;
        cut =
            rw (t1.cut, t2.cut, t3.cut, head, last, ← same)
              (rw (append_assoc name (tag p ∷ []) (drop c3 bytes)) refl);
      }

  decode_entry-Read :
      (cursor : ℕ) (r : ServiceEntry × ℕ)
      → decode_entry bytes cursor ≡ ok r
      → Read bytes cursor r.0 r.1
  unfolding decode_entry
  decode_entry-Read cursor r h = step_ok (take_uint 2 bytes cursor) _ h (λ l e1 h1.
      step_ok (checked_len l.0) _ h1 (λ u e2 h2. step_ok (take_at bytes l.1 l.0) _ h2 (λ raw e3 h3.
        step_ok (checked_name raw.0) _ h3 (λ name e4 h4.
          step_ok (take_uint 1 bytes raw.1) _ h4 (λ t e5 h5. step_ok (from_tag t.0) _ h5 (λ p e6 h6.
            subst (λ q. Read bytes cursor q.0 q.1) (ok-injective h6)
              (entry_read cursor l.0 l.1 raw.0 raw.1 name t.0 t.1 p u e1 e2 e3 e4 e5 e6)))))))

  decode_entries-ReadAll :
      (count cursor : ℕ) (r : ServiceCatalog × ℕ)
      → decode_entries bytes count cursor ≡ ok r
      → ReadAll bytes cursor count r.0 r.1
  unfolding decode_entries entries_bytes
  decode_entries-ReadAll zero cursor r h =
      subst (λ q. ReadAll bytes cursor 0 q.0 q.1) (ok-injective h)
        (record { size = refl; short = tt; utf8 = tt; cut = refl })
  decode_entries-ReadAll (suc count) cursor r h =
      step_ok (decode_entry bytes cursor) _ h (λ first e1 h1.
        step_ok (decode_entries bytes count first.1) _ h1 (λ rest e2 h2.
          let a : Read bytes cursor first.0 first.1 = decode_entry-Read cursor first e1 in
          let b : ReadAll bytes first.1 count rest.0 rest.1 =
            decode_entries-ReadAll count first.1 rest e2 in
          subst (λ q. ReadAll bytes cursor (suc count) q.0 q.1) (ok-injective h2)
            (record {
              size = ap suc b.size;
              short = (a.short, b.short);
              utf8 = (a.utf8, b.utf8);
              cut =
                  rw (a.cut, b.cut)
                    (sym (
                      append_assoc (entry_bytes first.0) (entries_bytes rest.0)
                        (drop rest.1 bytes)));
            })))

  whole_catalog :
      (n c1 : ℕ) (u : Unit {0}) (r : ServiceCatalog × ℕ) (c : ServiceCatalog)
      → take_uint 4 bytes 0 ≡ ok (n, c1)
      → checked_count n ≡ ok u
      → decode_entries bytes n c1 ≡ ok r
      → checked_end bytes r ≡ ok c
      → All NamedInUtf8 c × (encode c ≡ ok bytes)
  whole_catalog n c1 u r c e1 e2 e3 e4 =
      let (xs, t, v) = take_uint-Took 4 0 n c1 e1 in
      let a : ReadAll bytes c1 n r.0 r.1 = decode_entries-ReadAll n c1 r e3 in
      let (at_end, same) = checked_end_parts r c e4 in
      let head : xs ≡ be32 (length r.0) =
        sym (be32-be_value xs t.size (Took-bytes t)) ∙ ap be32 (sym v ∙ sym a.size) in
      let whole : catalog_bytes r.0 ≡ bytes =
        rw (t.cut, a.cut, at_end, drop_all bytes, append-nil (entries_bytes r.0), head) refl in
      let within : IsWithin r.0 = record {
        few = subst (λ k. k ≤ max_catalog_entries) (sym a.size) (checked_count-le n u e2);
        short = a.short;
      } in
      subst (λ d. All NamedInUtf8 d × (encode d ≡ ok bytes)) same
        (a.utf8, encode-ok r.0 within ∙ ap ok whole)

  decode_parts :
      (c : ServiceCatalog) → decode bytes ≡ ok c → All NamedInUtf8 c × (encode c ≡ ok bytes)
  unfolding decode
  decode_parts c h = step_ok (take_uint 4 bytes 0) _ h (λ n e1 h1.
      step_ok (checked_count n.0) _ h1 (λ u e2 h2.
        step_ok (decode_entries bytes n.0 n.1) _ h2
          (λ r e3 h3. whole_catalog n.0 n.1 u r c e1 e2 e3 h3)))

-- For a buffer of bytes, the decoder returns a catalog exactly when the catalog's names are text
-- and the encoder, within its bounds, makes exactly that buffer of it: each catalog has one
-- encoding, and nothing else is ever read, no trailing byte included.
pub decode_iff :
    (bytes : List ℕ) (c : ServiceCatalog)
    → AreBytes bytes
    → ((decode bytes ≡ ok c) ↔ (All NamedInUtf8 c × (encode c ≡ ok bytes)))
decode_iff bytes c real = (decode_parts bytes real c, λ (utf8, e). decode-encode c bytes utf8 e)
