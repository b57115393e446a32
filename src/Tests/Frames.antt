-- ===== src/Tests/Frames.antt =====
-- Runs of src/protocol.rs and tightbeam-handler/src/wire.rs, under small instances.
use tightbeam.Base.{
  ◌&&◌, true, false, ℕ, ◌≤◌, ◌≡◌, refl, Bool, true, false, Option, none, some, List, [], ◌∷◌, ◌++◌,
  length, arith,
}
use tightbeam.Base.Bytes.{is_utf8}
use tightbeam.Base.Stream.{ok}
use tightbeam.Base.Results.{Result}
use tightbeam.Protocol.Frames.{write_str, write_opt, Details, unavailable}
use tightbeam.Protocol.Request.{Request, write, read, identity, version, all_between}
use tightbeam.Protocol.Request.RoundTrip.{request_round_trip}
use tightbeam.Protocol.Response
use tightbeam.Protocol.Response.RoundTrip.{response_round_trip}
use tightbeam.Wire.{WireError, malformed, Frame, read_frame}
use tightbeam.Wire.Exact.{read_frame-first_frame}
use tightbeam.Wire.Cap.{Keeps}

abbrev two_details : Bool → List ℕ
two_details true = b'f' ∷ b'u' ∷ b'l' ∷ b'l' ∷ []
two_details false = []

abbrev detail_of : List ℕ → Option Bool
detail_of [] = some false
detail_of (b ∷ bs) = some true

pub two_bounded : (d : Bool) → length (two_details d) ≤ 4
two_bounded true = omega arith
two_bounded false = omega arith

pub two_read_back : (d : Bool) → detail_of (two_details d) ≡ some d
two_read_back true = refl
two_read_back false = refl

abbrev pub few_details : Details
few_details = record {
  Detail = Bool;
  max_len = 4;
  as_bytes = two_details;
  try_from = detail_of;
  bounded = λ text. true;
  bound = two_bounded;
  reads_back = two_read_back;
  fits = omega arith;
}

abbrev pub ask : Request
ask = record { service = b'a' ∷ []; capability = some (b'c' ∷ []); membership = none }

abbrev pub ask_bytes : List ℕ
ask_bytes = 0x54 ∷ 0x42 ∷ 0x30 ∷ 0x34 ∷ 0 ∷ 1 ∷ b'a' ∷ 1 ∷ 0 ∷ 1 ∷ b'c' ∷ 0 ∷ []

ask_written : write ask [] ≡ ok tt ask_bytes
unfolding write write_str write_opt
ask_written = refl

request_round_trip_example :
    (bs : List ℕ) × (write ask [] ≡ ok tt ([] ++ bs)) × (read (bs ++ 9 ∷ []) ≡ ok ask (9 ∷ []))
unfolding is_utf8
request_round_trip_example =
    request_round_trip ask [] (9 ∷ [])
      (record { service = refl; capability = refl; membership = tt })
      (record { service = omega arith; capability = omega arith; membership = tt })

response_round_trip_example :
    (bs : List ℕ) × (Response.write few_details (Response.refused (unavailable true)) []
      ≡ ok tt ([] ++ bs))
    × (Response.read few_details (bs ++ 9 ∷ []) ≡ ok (Response.refused (unavailable true)) (9 ∷ []))
response_round_trip_example =
    response_round_trip few_details (Response.refused (unavailable true)) [] (9 ∷ []) tt

-- The asserts on the preamble.
preamble_bounds : all_between identity b'A' b'Z' && all_between version b'0' b'9' ≡ true
unfolding all_between
preamble_bounds = refl

no_text : all_between [] b'A' b'Z' ≡ false
unfolding all_between
no_text = refl

-- A length byte, and that many bytes.
abbrev first_of : List ℕ → ℕ
first_of [] = 0
first_of (b ∷ bs) = b

abbrev body_of : List ℕ → Result (WireError (Unit {0})) (List ℕ)
body_of [] = Result.err (malformed tt)
body_of (b ∷ bs) = Result.ok bs

abbrev counted : Frame
counted = record {
  Self = List ℕ;
  Cause = Unit {0};
  max = 3;
  head = 1;
  rest = first_of;
  encode = λ bytes. length bytes ∷ bytes;
  decode = body_of;
  bounds = omega arith;
}

read_frame-first_frame_example : read_frame counted (2 ∷ 8 ∷ 9 ∷ 7 ∷ []) ≡ ok (8 ∷ 9 ∷ []) (7 ∷ [])
read_frame-first_frame_example = read_frame-first_frame counted (2 ∷ 8 ∷ 9 ∷ 7 ∷ []) (omega arith)

two_kept : Keeps counted (8 ∷ 9 ∷ [])
two_kept = record {
  opens = omega arith;
  states_length = refl;
  reads_back = refl;
  addressable = omega arith;
}

three_kept : Keeps counted (8 ∷ 9 ∷ 7 ∷ [])
three_kept = record {
  opens = omega arith;
  states_length = refl;
  reads_back = refl;
  addressable = omega arith;
}
