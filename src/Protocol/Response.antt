-- ===== src/Protocol/Response.antt =====
-- src/protocol.rs: the reply of the host, the frame that every version of the wire can read.
pub mod RoundTrip
use tightbeam.Base.{ℕ, Option, none, some, List, [], ◌∷◌, ◌==◌, if◌then◌else◌}
use tightbeam.Base.Stream.{
  Io, IoError, other, unknown_code, unknown_tag, unencodable, ◌>>=◌, ◌>>◌, return, fail, read_exact,
  write_all,
}
use tightbeam.Protocol.Frames.{
  Details, Refusal, not_admitted, bad_request, unavailable, newer, write_detail, read_detail,
  head_byte,
}

pub data Response (D : Type 0) : Type 0 where
  accepted : Response D
  refused : Refusal D → Response D

-- The codes of `refusal_tag`, with the detail that follows each on the wire.
unfoldable pub refusal_code : {D : Type 0} → Refusal D → Io IoError (ℕ × Option D)
refusal_code not_admitted = return (0, none)
refusal_code (bad_request detail) = return (1, some detail)
refusal_code (unavailable detail) = return (2, some detail)
refusal_code (newer class) = fail (other (unencodable class))

module _ (api : Details) where
  open api use {Detail}

  write_tail : Option Detail → Io IoError (Unit {0})
  write_tail none = return tt
  write_tail (some detail) = write_detail api detail

  -- The frame is settled before a byte moves.
  write_refusal : Refusal Detail → Io IoError (Unit {0})
  unfolding refusal_code write_tail
  write_refusal refusal =
      refusal_code refusal >>= λ coded. write_all (1 ∷ coded.0 ∷ []) >> write_tail coded.1

  unfoldable pub write : Response Detail → Io IoError (Unit {0})
  unfolding write_refusal
  write accepted = write_all (0 ∷ [])
  write (refused refusal) = write_refusal refusal

  -- `match code[0]`
  read_refusal : ℕ → Io IoError (Response Detail)
  read_refusal code =
      if code == 0
      then return (refused not_admitted)
      else if code == 1
      then (read_detail api >>= λ detail. return (refused (bad_request detail)))
      else if code == 2
      then (read_detail api >>= λ detail. return (refused (unavailable detail)))
      else fail (other (unknown_code code))

  -- `match tag[0]`
  read_tagged : ℕ → Io IoError (Response Detail)
  unfolding read_refusal
  read_tagged tag =
      if tag == 0
      then return accepted
      else if tag == 1
      then (read_exact 1 >>= λ code. read_refusal (head_byte code))
      else fail (other (unknown_tag tag))

  unfoldable pub read : Io IoError (Response Detail)
  unfolding read_tagged
  read = do tag ← read_exact 1; read_tagged (head_byte tag)
