-- ===== src/Protocol/Request.antt =====
-- src/protocol.rs: the opening frame of a connector. `write` sends the magic and the three fields,
-- `write_checked` refuses a credential that the session's declared security does not cover, and
-- `read` parses the magic in two halves before it reads a field.
pub mod RoundTrip
pub mod Reading
use tightbeam.Base.{
  ℕ, ◌≡◌, Bool, true, false, not, ◌&&◌, ◌||◌, Option, none, some, List, [], ◌∷◌, ◌++◌, leb,
  if◌then◌else◌, is_some, same_bytes,
}
use tightbeam.Base.Bytes.{Text}
use tightbeam.Base.Stream.{Io, IoError, ◌>>=◌, ◌>>◌, return, fail, map_err, read_exact, write_all}
use tightbeam.Security.{Security, peer_proven, TransportInsecure}
use tightbeam.Protocol.Frames.{
  write_str, read_str, write_opt, read_opt, head_byte, Details, Refusal, bad_request,
}

-- `IDENTITY` ("TB") and `VERSION` ("04")
abbrev pub identity : List ℕ
identity = 0x54 ∷ 0x42 ∷ []

abbrev pub WireVersion : Type 0
WireVersion = List ℕ

abbrev pub version : WireVersion
version = 0x30 ∷ 0x34 ∷ []

unfoldable pub all_between : List ℕ → ℕ → ℕ → Bool
all_between [] lo hi = false
all_between (b ∷ []) lo hi = leb lo b && leb b hi
all_between (b ∷ c ∷ bs) lo hi = leb lo b && leb b hi && all_between (c ∷ bs) lo hi

pub record Request : Type 0 where
  pub service : Text
  pub capability : Option Text
  pub membership : Option Text

pub data WriteError : Type 0 where
  insecure : TransportInsecure → WriteError
  io : IoError → WriteError

pub data ReadError : Type 0 where
  foreign : ReadError
  mismatch : WireVersion → ReadError
  io : IoError → ReadError

unfoldable pub write : Request → Io IoError (Unit {0})
write r = do
  write_all identity
  write_all version
  write_str r.service
  write_opt r.capability
  write_opt r.membership

unfoldable pub presents_credential : Request → Bool
presents_credential r = is_some r.capability || is_some r.membership

unfoldable pub write_checked : Security → Request → Io WriteError (Unit {0})
write_checked security r =
    if presents_credential r && not (peer_proven security)
    then fail (insecure (record { declared = security.peer }))
    else map_err WriteError.io (write r)

is_ascii_uppercase : ℕ → Bool
is_ascii_uppercase b = leb 0x41 b && leb b 0x5a

-- The identity must end where ours does.
owned_version : List ℕ → Io ReadError WireVersion
unfolding is_ascii_uppercase
owned_version bytes = if is_ascii_uppercase (head_byte bytes) then fail foreign else return bytes

-- `WireVersion::read`
read_version : Io ReadError WireVersion
unfolding owned_version
read_version = do bytes ← map_err ReadError.io (read_exact 2); owned_version bytes

unfoldable pub read_fields : Io ReadError Request
read_fields = do
  service ← map_err ReadError.io read_str
  capability ← map_err ReadError.io read_opt
  membership ← map_err ReadError.io read_opt
  return (record { service = service; capability = capability; membership = membership })

-- What follows the version.
read_body : WireVersion → Io ReadError Request
read_body peer = if same_bytes peer version then read_fields else fail (mismatch peer)

-- What follows the identity.
read_preamble : List ℕ → Io ReadError Request
unfolding read_version read_body
read_preamble found =
    if same_bytes found identity then (read_version >>= λ peer. read_body peer) else fail foreign

unfoldable pub read : Io ReadError Request
unfolding read_preamble
read = do found ← map_err ReadError.io (read_exact 2); read_preamble found

-- `RequestReadError::refusal`: the one unreadable frame that is answered. `display` renders a
-- version mismatch, as the error's own message does.
unfoldable pub refusal :
    (api : Details) → (WireVersion → Text) → ReadError → Option (Refusal (api.Detail))
refusal api display foreign = none
refusal api display (mismatch peer) = some (bad_request (api.bounded (display peer)))
refusal api display (ReadError.io e) = none
