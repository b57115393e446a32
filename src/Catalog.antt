-- ===== src/Catalog.antt =====
-- src/tunnel/catalog.rs: the service catalog and its self-delimiting wire form. A blob is a list of
-- bytes and a name the list of its bytes; a `usize` is 64 bits wide.
pub mod Cursor
pub mod Encode
pub mod Decode
pub mod Canonical
use tightbeam.Base.{
  ℕ, ◌+◌, ◌*◌, ◌^◌, ◌≡◌, refl, List, [], ◌∷◌, ◌++◌, length, ltb, leb, ◌==◌, if◌then◌else◌, take,
  drop,
}
use tightbeam.Base.Bytes.{Text, be16, be32, be_value, is_utf8}
use tightbeam.Base.Results.{Result, ok, err, ◌>>=◌, ◌>>◌}

-- `Open` is a reserved word here.
pub data Posture : Type 0 where
  gated opened : Posture

pub record ServiceEntry : Type 0 where
  pub name : Text
  pub posture : Posture

abbrev pub ServiceCatalog : Type 0
ServiceCatalog = List ServiceEntry

abbrev pub max_service_name_len : ℕ
max_service_name_len = 256

abbrev pub max_catalog_entries : ℕ
max_catalog_entries = 1024

abbrev pub count_prefix_len : ℕ
count_prefix_len = 4

abbrev pub entry_overhead_len : ℕ
entry_overhead_len = 2 + 1

abbrev pub max_catalog_blob : ℕ
max_catalog_blob =
    count_prefix_len + max_catalog_entries * (entry_overhead_len + max_service_name_len)

pub data CatalogTooLarge : Type 0 where
  too_many_services : ℕ → CatalogTooLarge
  too_long_name : Text → ℕ → CatalogTooLarge

pub data DecodeError : Type 0 where
  length_overflow truncated invalid_name trailing_bytes : DecodeError
  too_many too_long unknown_posture : ℕ → DecodeError

unfoldable pub tag : Posture → ℕ
tag gated = 0
tag opened = 1

unfoldable pub from_tag : ℕ → Result DecodeError Posture
from_tag t = if t == 0 then ok gated else if t == 1 then ok opened else err (unknown_posture t)

-- The buffer's size, and the refusal of the first name that is too long.
pub sized_from : ℕ → ServiceCatalog → Result CatalogTooLarge ℕ
sized_from size [] = ok size
sized_from size (e ∷ es) =
    let rest = sized_from (size + (entry_overhead_len + length e.name)) es in
    if ltb max_service_name_len (length e.name)
    then err (too_long_name e.name (length e.name))
    else rest

-- One entry, with the casts of its length and tag.
pub entry_bytes : ServiceEntry → List ℕ
unfolding tag
entry_bytes e = be16 (length e.name) ++ (e.name ++ tag e.posture ∷ [])

pub entries_bytes : ServiceCatalog → List ℕ
unfolding entry_bytes
entries_bytes [] = []
entries_bytes (e ∷ es) = entry_bytes e ++ entries_bytes es

unfoldable pub encode : ServiceCatalog → Result CatalogTooLarge (List ℕ)
unfolding sized_from entries_bytes
encode entries =
    if ltb max_catalog_entries (length entries)
    then err (too_many_services (length entries))
    else (sized_from count_prefix_len entries >>= λ size.
        ok (be32 (length entries) ++ entries_bytes entries))

-- `len` bytes at the cursor, and the cursor behind them.
pub take_at : List ℕ → ℕ → ℕ → Result DecodeError (List ℕ × ℕ)
take_at bytes cursor len =
    if ltb (cursor + len) (2 ^ 64)
    then (if leb (cursor + len) (length bytes)
        then ok (take len (drop cursor bytes), cursor + len)
        else err truncated)
    else err length_overflow

-- `take_u16` and `take_u32`
pub take_uint : ℕ → List ℕ → ℕ → Result DecodeError (ℕ × ℕ)
unfolding take_at
take_uint width bytes cursor = take_at bytes cursor width >>= λ t. ok (be_value t.0, t.1)

pub checked_name : List ℕ → Result DecodeError Text
checked_name name = if is_utf8 name then ok name else err invalid_name

pub checked_len : ℕ → Result DecodeError (Unit {0})
checked_len len = if ltb max_service_name_len len then err (too_long len) else ok tt

pub decode_entry : List ℕ → ℕ → Result DecodeError (ServiceEntry × ℕ)
unfolding take_uint checked_name checked_len
decode_entry bytes cursor = do
  len ← take_uint 2 bytes cursor
  checked_len len.0
  raw ← take_at bytes len.1 len.0
  name ← checked_name raw.0
  t ← take_uint 1 bytes raw.1
  posture ← from_tag t.0
  ok (record { name = name; posture = posture }, t.1)

pub decode_entries : List ℕ → ℕ → ℕ → Result DecodeError (ServiceCatalog × ℕ)
unfolding decode_entry
decode_entries bytes ℕ.zero cursor = ok ([], cursor)
decode_entries bytes (ℕ.suc count) cursor = do
  first ← decode_entry bytes cursor
  rest ← decode_entries bytes count first.1
  ok (first.0 ∷ rest.0, rest.1)

pub checked_count : ℕ → Result DecodeError (Unit {0})
checked_count count = if ltb max_catalog_entries count then err (too_many count) else ok tt

pub checked_end : List ℕ → ServiceCatalog × ℕ → Result DecodeError ServiceCatalog
checked_end bytes read = if read.1 == length bytes then ok read.0 else err trailing_bytes

unfoldable pub decode : List ℕ → Result DecodeError ServiceCatalog
unfolding decode_entries checked_count checked_end take_uint
decode bytes = do
  count ← take_uint 4 bytes 0
  checked_count count.0
  read ← decode_entries bytes count.0 count.1
  checked_end bytes read
