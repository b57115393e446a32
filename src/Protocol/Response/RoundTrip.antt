-- ===== src/Protocol/Response/RoundTrip.antt =====
-- A reply reads back as it was sent, and one that this build cannot encode sends nothing.
use tightbeam.Base.{ℕ, ◌≤◌, ◌≡◌, refl, ap, List, [], ◌∷◌, ◌++◌, append_assoc, arith, ◌∙◌}
use tightbeam.Base.Stream.{
  ok, err, other, unencodable, unknown_code, unknown_tag, read_exact, read_exact-append,
}
use tightbeam.Protocol.Frames.{Details, not_admitted, bad_request, unavailable, newer}
use tightbeam.Protocol.Frames.Laws.{detail_bytes, write_detail-ok, read_detail-append}
use tightbeam.Protocol.Response.{Response, accepted, refused, write, read}

-- A class this build has a code for.
abbrev pub IsKnown : {D : Type 0} → Response D → Type 0
IsKnown accepted = Unit
IsKnown (refused not_admitted) = Unit
IsKnown (refused (bad_request d)) = Unit
IsKnown (refused (unavailable d)) = Unit
IsKnown (refused (newer n)) = ⊥

module _ (api : Details) where
  open api use {Detail}

  -- The whole frame.
  abbrev pub response_bytes : Response Detail → List ℕ
  response_bytes accepted = 0 ∷ []
  response_bytes (refused not_admitted) = 1 ∷ 0 ∷ []
  response_bytes (refused (bad_request d)) = 1 ∷ 1 ∷ detail_bytes api d
  response_bytes (refused (unavailable d)) = 1 ∷ 2 ∷ detail_bytes api d
  response_bytes (refused (newer n)) = []

  write-ok :
      (r : Response Detail) (out : List ℕ)
      → IsKnown r
      → write api r out ≡ ok tt (out ++ response_bytes r)
  unfolding write
  write-ok accepted out k = refl
  write-ok (refused not_admitted) out k = refl
  write-ok (refused (bad_request d)) out k =
      write_detail-ok api d (out ++ (1 ∷ 1 ∷ []))
      ∙ ap (λ s. ok tt s) (append_assoc out (1 ∷ 1 ∷ []) (detail_bytes api d))
  write-ok (refused (unavailable d)) out k =
      write_detail-ok api d (out ++ (1 ∷ 2 ∷ []))
      ∙ ap (λ s. ok tt s) (append_assoc out (1 ∷ 2 ∷ []) (detail_bytes api d))
  write-ok (refused (newer n)) out k = absurd k

  read_one : (b : ℕ) (rest : List ℕ) → read_exact 1 (b ∷ rest) ≡ ok (b ∷ []) rest
  read_one b rest = read_exact-append 1 (b ∷ []) rest refl

  read-response_bytes :
      (r : Response Detail) (rest : List ℕ)
      → IsKnown r
      → read api (response_bytes r ++ rest) ≡ ok r rest
  unfolding read
  read-response_bytes accepted rest k = rw (read_one 0 rest, read) refl
  read-response_bytes (refused not_admitted) rest k =
      rw (read_one 1 (0 ∷ rest), read) (rw (read_one 0 rest, read) refl)
  read-response_bytes (refused (bad_request d)) rest k =
      rw (read_one 1 (1 ∷ (detail_bytes api d ++ rest)), read)
        (rw (read_one 1 (detail_bytes api d ++ rest), read)
          (rw (read_detail-append api d rest, read) refl))
  read-response_bytes (refused (unavailable d)) rest k =
      rw (read_one 1 (2 ∷ (detail_bytes api d ++ rest)), read)
        (rw (read_one 2 (detail_bytes api d ++ rest), read)
          (rw (read_detail-append api d rest, read) refl))
  read-response_bytes (refused (newer n)) rest k = absurd k

  -- A reply of a class with a code is written whole, and reads back as the same reply with what
  -- follows it untouched.
  pub response_round_trip :
      (r : Response Detail) (out payload : List ℕ)
      → IsKnown r
      → (bs : List ℕ) × (write api r out ≡ ok tt (out ++ bs))
        × (read api (bs ++ payload) ≡ ok r payload)
  response_round_trip r out payload k =
      (response_bytes r, write-ok r out k, read-response_bytes r payload k)

  -- A refusal of a class with no code fails the write and leaves the stream as it was; a tag or a
  -- code that this build does not know is an error that names it, with nothing behind it read:
  -- never a success, and never a refusal of another class.
  unknown_classes :
      (class tag code : ℕ) (out rest : List ℕ)
      → 2 ≤ tag
      → 3 ≤ code
      → (write api (refused (newer class)) out ≡ err (other (unencodable class)) out)
        × (read api (tag ∷ rest) ≡ err (other (unknown_tag tag)) rest)
        × (read api (1 ∷ code ∷ rest) ≡ err (other (unknown_code code)) rest)
  unfolding write read
  unknown_classes class tag code out rest h k = (
    refl,
    ground (arith, read_one tag rest),
    ground (arith, read_one 1 (code ∷ rest), read_one code rest),
  )
