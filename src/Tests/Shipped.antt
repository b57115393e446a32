-- ===== src/Tests/Shipped.antt =====
-- The handlers that the crate ships.
use tightbeam.Base.{
  ℕ, ◌≤◌, ◌≡◌, ◌≢◌, refl, true, false, Option, none, some, List, [], ◌∷◌, ◌++◌, length, same_bytes,
}
use tightbeam.Base.Bytes.{Text}
use tightbeam.Base.Results.{ok}
use tightbeam.Grammar.{forward, unix_word, parse_target}
use tightbeam.Pump.{
  reads, writes, HalfTurn, moves, is_finished, is_broken, half_run, splice, splice_run, Side,
}
use tightbeam.Pump.Delivered.{copy_of}
use tightbeam.Builtins.{
  Endpoint, tcp, unix, refused, served, unreached, not_an_endpoint, serve_forward, serve_echo,
}
use tightbeam.Builtins.Reached.{spelled, serve_forward-reaches}
use tightbeam.Builtins.Reflected.{serve_echo-reflects}
use tightbeam.Tests.Pumps.{both_ways}

abbrev socket : Text
socket = unix_word ++ b':' ∷ b's' ∷ []

-- A socket that greets with 1 and 2; nothing listens on a port.
abbrev greets : Endpoint → Option (List ℕ)
greets (unix path) = some (1 ∷ 2 ∷ [])
greets (tcp host_port) = none

socket_served : serve_forward greets (record { addr = socket }) (3 ∷ []) both_ways ≡ served
unfolding serve_forward same_bytes
socket_served = refl

-- An address that no router would take is refused by name, never guessed.
unrouted :
    serve_forward greets (record { addr = b'x' ∷ [] }) (3 ∷ []) both_ways ≡ refused not_an_endpoint
unfolding serve_forward
unrouted = refl

socket_parsed : parse_target false socket ≡ ok (forward socket)
unfolding parse_target same_bytes
socket_parsed = refl

serve_forward-reaches_example :
    (e : Endpoint) × (spelled e ≡ socket)
    × ((connect : Endpoint → Option (List ℕ)) (peer : List ℕ) (ts : List (Side × HalfTurn))
        → (serve_forward connect (record { addr = socket }) peer ts ≢ refused not_an_endpoint)
          × (connect e ≡ none
              → serve_forward connect (record { addr = socket }) peer ts ≡ refused unreached)
          × ((local : List ℕ)
              → connect e ≡ some local
              → serve_forward connect (record { addr = socket }) peer ts ≡ served
              → ((copy_of (splice_run ts (splice local peer)).upstream).written ≡ local)
                × ((copy_of (splice_run ts (splice local peer)).downstream).written ≡ peer)))
serve_forward-reaches_example = serve_forward-reaches false socket socket socket_parsed

abbrev one_byte : List HalfTurn
one_byte = moves (reads 2) ∷ moves (writes 1) ∷ []

serve_echo-reflects_example :
    ((rest : List ℕ) × ((copy_of (serve_echo (5 ∷ 6 ∷ []) one_byte)).written ++ rest ≡ 5 ∷ 6 ∷ []))
    × (length ((copy_of (serve_echo (5 ∷ 6 ∷ []) one_byte)).written) ≤ 2)
    × (is_finished (serve_echo (5 ∷ 6 ∷ []) one_byte) ≡ true
        → (copy_of (serve_echo (5 ∷ 6 ∷ []) one_byte)).written ≡ 5 ∷ 6 ∷ [])
    × (is_broken (serve_echo (5 ∷ 6 ∷ []) one_byte) ≡ false
        → (more : List HalfTurn) × (is_finished (half_run more (serve_echo (5 ∷ 6 ∷ []) one_byte))
            ≡ true))
serve_echo-reflects_example = serve_echo-reflects (5 ∷ 6 ∷ []) one_byte
