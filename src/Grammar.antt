-- ===== src/Grammar.antt =====
-- src/tunnel/router.rs: the grammar of a `name=target` entry, with the constructors of a raw stream
-- (src/raw_stream.rs) that it calls. Text is bytes; `split_once`, `rsplit_once`, `strip_suffix` and the
-- parse of a `u16` are the standard library's. Whether the standard input is a terminal is an
-- argument, and an error is its class without the sentence.
pub mod Words
pub mod Spelling
pub mod Endpoint
pub mod Exact
pub mod Entries
use tightbeam.Base.{
  ℕ, ◌+◌, ◌*◌, ◌-◌, Bool, true, false, not, ◌&&◌, ◌||◌, Option, none, some, List, [], ◌∷◌, ltb, leb,
  ◌==◌, if◌then◌else◌, same_bytes, any,
}
use tightbeam.Base.Bytes.{Text}
use tightbeam.Base.Results.{Result, ok, err, ◌>>=◌, ◌>>◌, some_or}
use tightbeam.Policy.{opt_in}
use tightbeam.Router.{Services, Route, Target, handler, raw_stream, family}

pub data Misspelt : Type 0 where
  no_service no_scheme unknown_scheme lossy_misplaced not_an_endpoint : Misspelt
  no_path takes_argument is_a_terminal bad_name already_defined : Misspelt

-- What a target names.
pub data Spec : Type 0 where
  forward : (addr : Text) → Spec
  file : (path : Text) → Spec
  fifo : (path : Text) (lossy : Bool) → Spec
  stdin : (lossy : Bool) → Spec
  echo : Spec

abbrev pub before_it : ℕ → Option (Text × Text) → Option (Text × Text)
before_it b none = none
before_it b (some (l, r)) = some (b ∷ l, r)

unfoldable pub split_once : ℕ → Text → Option (Text × Text)
split_once c [] = none
split_once c (b ∷ bs) =
    let rest = split_once c bs in if b == c then some ([], bs) else before_it b rest

abbrev pub or_here : ℕ → ℕ → Text → Option (Text × Text) → Option (Text × Text)
or_here c b bs (some (l, r)) = some (b ∷ l, r)
or_here c b bs none = if b == c then some ([], bs) else none

unfoldable pub rsplit_once : ℕ → Text → Option (Text × Text)
rsplit_once c [] = none
rsplit_once c (b ∷ bs) = or_here c b bs (rsplit_once c bs)

abbrev pub onto : ℕ → Option Text → Option Text
onto b none = none
onto b (some t) = some (b ∷ t)

unfoldable pub strip_suffix : Text → Text → Option Text
strip_suffix suffix [] = if same_bytes [] suffix then some [] else none
strip_suffix suffix (b ∷ bs) =
    let rest = strip_suffix suffix bs in if same_bytes (b ∷ bs) suffix then some [] else onto b rest

-- `parse::<u16>().is_ok()`, from what is read so far.
abbrev pub u16_digits : ℕ → Text → Bool
u16_digits acc [] = true
u16_digits acc (b ∷ bs) =
    let next = acc * 10 + (b - b'0') in
    let rest = u16_digits next bs in leb b'0' b && leb b b'9' && ltb next 65536 && rest

unfoldable pub is_u16 : Text → Bool
is_u16 [] = false
is_u16 (b ∷ []) = u16_digits 0 (b ∷ [])
is_u16 (b ∷ c ∷ bs) = if b == b'+' then u16_digits 0 (c ∷ bs) else u16_digits 0 (b ∷ c ∷ bs)

abbrev pub tcp_word : Text
tcp_word = b't' ∷ b'c' ∷ b'p' ∷ []

abbrev pub unix_word : Text
unix_word = b'u' ∷ b'n' ∷ b'i' ∷ b'x' ∷ []

abbrev pub file_word : Text
file_word = b'f' ∷ b'i' ∷ b'l' ∷ b'e' ∷ []

abbrev pub fifo_word : Text
fifo_word = b'f' ∷ b'i' ∷ b'f' ∷ b'o' ∷ []

abbrev pub stdin_word : Text
stdin_word = b's' ∷ b't' ∷ b'd' ∷ b'i' ∷ b'n' ∷ []

abbrev pub echo_word : Text
echo_word = b'e' ∷ b'c' ∷ b'h' ∷ b'o' ∷ []

abbrev pub lossy_word : Text
lossy_word = b'+' ∷ b'l' ∷ b'o' ∷ b's' ∷ b's' ∷ b'y' ∷ []

abbrev pub is_empty : Text → Bool
is_empty [] = true
is_empty (b ∷ bs) = false

abbrev pub host_and_port : Option (Text × Text) → Bool
host_and_port none = false
host_and_port (some (host, port)) = not (is_empty host) && is_u16 port

abbrev pub scheme_endpoint : Option (Text × Text) → Bool
scheme_endpoint none = false
scheme_endpoint (some (scheme, rest)) =
    if same_bytes scheme tcp_word
    then host_and_port (rsplit_once b':' rest)
    else if same_bytes scheme unix_word
    then not (is_empty rest)
    else false

-- `validate_forward`
unfoldable pub validate_forward : Text → Bool
unfolding split_once rsplit_once is_u16
validate_forward addr = scheme_endpoint (split_once b':' addr)

-- `RawStream::{file, fifo}`
abbrev pub with_path : Text → Spec → Result Misspelt Spec
with_path path spec = if is_empty path then err no_path else ok spec

-- `no_argument`
abbrev pub no_argument : Text → Result Misspelt (Unit {0})
no_argument rest = if is_empty rest then ok tt else err takes_argument

-- `RawStream::stdin`
abbrev pub stdin_source : Bool → Bool → Result Misspelt Spec
stdin_source terminal lossy = if terminal then err is_a_terminal else ok (stdin lossy)

-- `match scheme`
unfoldable pub by_scheme : Bool → Bool → Text → Text → Text → Result Misspelt Spec
unfolding validate_forward
by_scheme terminal lossy addr scheme rest =
    if same_bytes scheme tcp_word || same_bytes scheme unix_word
    then (if validate_forward addr then ok (forward addr) else err not_an_endpoint)
    else if same_bytes scheme file_word
    then with_path rest (file rest)
    else if same_bytes scheme fifo_word
    then with_path rest (fifo rest lossy)
    else if same_bytes scheme stdin_word
    then no_argument rest >> stdin_source terminal lossy
    else if same_bytes scheme echo_word
    then no_argument rest >> ok echo
    else err unknown_scheme

abbrev pub lossy_allowed : Text → Bool
lossy_allowed scheme = same_bytes scheme stdin_word || same_bytes scheme fifo_word

abbrev pub with_scheme : Bool → Bool → Text → Option (Text × Text) → Result Misspelt Spec
with_scheme terminal lossy addr none = err no_scheme
with_scheme terminal lossy addr (some (scheme, rest)) =
    if lossy && not (lossy_allowed scheme)
    then err lossy_misplaced
    else by_scheme terminal lossy addr scheme rest

abbrev pub stripped : Bool → Text → Option Text → Result Misspelt Spec
stripped terminal addr (some base) = with_scheme terminal true base (split_once b':' base)
stripped terminal addr none = with_scheme terminal false addr (split_once b':' addr)

unfoldable pub parse_target : Bool → Text → Result Misspelt Spec
unfolding by_scheme split_once strip_suffix
parse_target terminal addr = stripped terminal addr (strip_suffix lossy_word addr)

-- The target of a route. `openable` is whether the source of a raw stream may be opened to anyone.
abbrev pub target_of : (openable : Bool) → Spec → Target
target_of openable (forward addr) = handler opt_in
target_of openable echo = handler opt_in
target_of openable (file path) = raw_stream openable
target_of openable (fifo path lossy) = raw_stream openable
target_of openable (stdin lossy) = raw_stream openable

abbrev pub parse_fresh : Bool → (taken : Bool) → Text → Result Misspelt Spec
parse_fresh terminal true addr = err already_defined
parse_fresh terminal false addr = parse_target terminal addr

module _ (parse_service : Text → Option Text) (terminal : Bool) (openable : Spec → Bool) where
  abbrev pub entry_route : Text → Spec → Route
  entry_route name spec = record {
    name = name;
    target = target_of (openable spec) spec;
    access = family;
  }

  -- `extend_parse`
  unfoldable pub extend_parse : List Text → Services → Result Misspelt Services
  unfolding parse_target
  extend_parse [] services = ok services
  extend_parse (entry ∷ entries) services = some_or no_service (split_once b'=' entry) >>= λ pair.
      some_or bad_name (parse_service pair.0) >>= λ checked.
      parse_fresh terminal (any (λ r. same_bytes r.name pair.0) services) pair.1 >>= λ spec.
      extend_parse entries (entry_route pair.0 spec ∷ services)
