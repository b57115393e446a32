-- ===== src/Tests/Targets.antt =====
-- Targets and entries, spelt and misspelt.
use tightbeam.Base.{◌≡◌, ◌≢◌, ◌↔◌, refl, true, false, [], ◌∷◌, ◌++◌, same_bytes}
use tightbeam.Base.Bytes.{Text}
use tightbeam.Base.Results.{ok, err}
use tightbeam.Policy.{opt_in}
use tightbeam.Router.{Services, handler, raw_stream, family}
use tightbeam.Grammar.{
  fifo, forward, parse_target, takes_argument, lossy_misplaced, unknown_scheme, fifo_word,
  echo_word, lossy_word, tcp_word,
}
use tightbeam.Grammar.Spelling.{spell}
use tightbeam.Grammar.Exact.{parse_target_iff}

-- `fifo:/a+lossy`
parse_target_iff_example :
    (parse_target false (fifo_word ++ b':' ∷ b'/' ∷ b'a' ∷ lossy_word)
      ≡ ok (fifo (b'/' ∷ b'a' ∷ []) true))
    ↔ ((fifo_word ++ b':' ∷ b'/' ∷ b'a' ∷ lossy_word ≡ spell (fifo (b'/' ∷ b'a' ∷ []) true))
        × (◌≢◌ {A = Text} (b'/' ∷ b'a' ∷ []) []))
parse_target_iff_example =
    parse_target_iff false (fifo_word ++ b':' ∷ b'/' ∷ b'a' ∷ lossy_word)
      (fifo (b'/' ∷ b'a' ∷ []) true)

-- `tcp:h:80`
tcp_accepted :
    parse_target true (tcp_word ++ b':' ∷ b'h' ∷ b':' ∷ b'8' ∷ b'0' ∷ [])
    ≡ ok (forward (tcp_word ++ b':' ∷ b'h' ∷ b':' ∷ b'8' ∷ b'0' ∷ []))
unfolding parse_target same_bytes
tcp_accepted = refl

-- `echo:x`, `echo:+lossy` and `h:80`
echo_refused : parse_target true (echo_word ++ b':' ∷ b'x' ∷ []) ≡ err takes_argument
unfolding parse_target same_bytes
echo_refused = refl

echo_lossy_refused : parse_target true (echo_word ++ b':' ∷ lossy_word) ≡ err lossy_misplaced
unfolding parse_target same_bytes
echo_lossy_refused = refl

bare_refused : parse_target true (b'h' ∷ b':' ∷ b'8' ∷ b'0' ∷ []) ≡ err unknown_scheme
unfolding parse_target same_bytes
bare_refused = refl

-- `e=echo:` after a table with one route.
abbrev one_route : Services
one_route = record { name = b'f' ∷ []; target = raw_stream true; access = family } ∷ []

abbrev echo_entry : Text
echo_entry = b'e' ∷ b'=' ∷ echo_word ++ b':' ∷ []

abbrev two_routes : Services
two_routes = record { name = b'e' ∷ []; target = handler opt_in; access = family } ∷ one_route
