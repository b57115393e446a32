-- ===== src/Protocol/Request/Reading.antt =====
-- Which openings of a stream are foreign, which are a version that this build does not speak, and
-- which of the two is answered on the wire; and what the checked writer refuses.
use tightbeam.Base.{
  ℕ, ◌≡◌, ◌⊎◌, inl, inr, refl, Option, none, some, List, [], ◌∷◌, Bool-cases, same_bytes, Bool,
  ◌&&◌, ◌==◌, if◌then◌else◌, true, false, arith, not, leb,
}
use tightbeam.Base.Bytes.{Text}
use tightbeam.Base.Stream.{
  Outcome, ok, err, and_then, read_exact, read_exact-append, fails_as, IoError,
}
use tightbeam.Security.{Security, peer_proven}
use tightbeam.Protocol.Frames.{Details, Refusal, bad_request, read_str, read_opt}
use tightbeam.Protocol.Request.{
  Request, write, write_checked, presents_credential, WriteError, insecure, ReadError, read,
  read_fields, refusal,
}

read_two : (a b : ℕ) (rest : List ℕ) → read_exact 2 (a ∷ b ∷ rest) ≡ ok (a ∷ b ∷ []) rest
read_two a b rest = read_exact-append 2 (a ∷ b ∷ []) rest refl

module _ (api : Details) (display : List ℕ → Text) where
  -- What the host writes back after a read.
  abbrev pub answer : Outcome ReadError Request → Option (Refusal (api.Detail))
  answer (ok r s) = none
  answer (err e s) = refusal api display e

  io_unanswered :
      {A : Type 0} (o : Outcome IoError A) (f : A → List ℕ → Outcome ReadError Request)
      → ((a : A) (s : List ℕ) → answer (f a s) ≡ none)
      → answer (and_then (fails_as ReadError.io o) f) ≡ none
  unfolding refusal
  io_unanswered (ok a s) f h = h a s
  io_unanswered (err e s) f h = refl

  read_fields-unanswered : (s : List ℕ) → answer (read_fields s) ≡ none
  unfolding read_fields
  read_fields-unanswered s = io_unanswered (read_str s) _ λ service s1.
      io_unanswered (read_opt s1) _
        λ capability s2. io_unanswered (read_opt s2) _ λ membership s3. refl

  -- The one opening that is answered: our identity, ending where ours ends, with another version.
  abbrev pub speaks_other_version : ℕ → ℕ → ℕ → ℕ → Bool
  speaks_other_version b0 b1 b2 b3 =
      (b0 == 0x54)
      && (b1 == 0x42)
      && not (leb 0x41 b2 && leb b2 0x5a)
      && not ((b2 == 0x30) && (b3 == 0x34))

  -- Of every stream of at least four bytes the host answers exactly those that open with our
  -- identity, end it there, and name another version; the answer is a `BadRequest` made of that
  -- version alone, whatever bytes follow. A foreign stream gets no answer, and neither does a frame
  -- of our own version that fails later.
  pub answer-read :
      (b0 b1 b2 b3 : ℕ) (rest : List ℕ)
      → answer (read (b0 ∷ b1 ∷ b2 ∷ b3 ∷ rest)) ≡ (
          if speaks_other_version b0 b1 b2 b3
          then some (bad_request (api.bounded (display (b2 ∷ b3 ∷ []))))
          else none)
  unfolding read same_bytes refusal
  answer-read b0 b1 b2 b3 rest =
      ground
        (arith, read_two b0 b1 (b2 ∷ b3 ∷ rest), read_two b2 b3 rest, read_fields-unanswered rest)

-- Over a session whose declared security does not prove the peer, a request that carries a
-- credential is refused with the declared proof and not a byte of it is sent; every other request
-- goes out exactly as the plain writer sends it.
pub write_checked_lem :
    (security : Security) (r : Request) (out : List ℕ)
    → ((presents_credential r ≡ true)
        × (peer_proven security ≡ false)
        × (write_checked security r out ≡ err (insecure (record { declared = security.peer })) out))
      ⊎ (((presents_credential r ≡ false) ⊎ (peer_proven security ≡ true))
          × (write_checked security r out ≡ fails_as WriteError.io (write r out)))
unfolding write_checked
write_checked_lem security r out = elim (Bool-cases (presents_credential r)) [
  | inl c ↦ elim (Bool-cases (peer_proven security)) [
    | inl p ↦ inr (inr p, rw (c, p) refl)
    | inr p ↦ inl (c, p, rw (c, p) refl)
  ]
  | inr c ↦ inr (inl c, rw c refl)
]
