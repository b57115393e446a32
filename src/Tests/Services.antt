-- ===== src/Tests/Services.antt =====
-- Runs of src/tunnel/catalog.rs.
use tightbeam.Base.{ℕ, ◌≡◌, ◌↔◌, refl, List, [], ◌∷◌, All, arith}
use tightbeam.Base.Bytes.{is_utf8}
use tightbeam.Base.Results.{ok, err}
use tightbeam.Catalog.{
  ServiceCatalog, gated, opened, encode, decode, from_tag, truncated, trailing_bytes,
}
use tightbeam.Catalog.Decode.{NamedInUtf8}
use tightbeam.Catalog.Canonical.{decode_iff}

abbrev two : ServiceCatalog
two = record { name = b'a' ∷ []; posture = gated } ∷ record { name = []; posture = opened } ∷ []

abbrev two_bytes : List ℕ
two_bytes = 0 ∷ 0 ∷ 0 ∷ 2 ∷ 0 ∷ 1 ∷ b'a' ∷ 0 ∷ 0 ∷ 0 ∷ 1 ∷ []

two_encoded : encode two ≡ ok two_bytes
unfolding encode
two_encoded = refl

two_read : decode two_bytes ≡ ok two
unfolding decode from_tag is_utf8
two_read = refl

one_short : decode (0 ∷ 0 ∷ 0 ∷ 1 ∷ 0 ∷ 1 ∷ []) ≡ err truncated
unfolding decode from_tag is_utf8
one_short = refl

one_more : decode (0 ∷ 0 ∷ 0 ∷ 0 ∷ 7 ∷ []) ≡ err trailing_bytes
unfolding decode from_tag is_utf8
one_more = refl

decode_iff_example :
    (decode two_bytes ≡ ok two) ↔ (All NamedInUtf8 two × (encode two ≡ ok two_bytes))
decode_iff_example = decode_iff two_bytes two (ground arith)
