-- ===== src/Wire/Exact.antt =====
-- What reading a frame takes off the stream, on every branch.
use tightbeam.Base.{
  ℕ, ◌+◌, ◌-◌, ◌^◌, ◌≤◌, ◌<◌, ◌≡◌, refl, List, length, take, drop, ltb, leb, arith, if◌then◌else◌,
  Bool-cases, inl, inr, leb→le, le→leb, length-drop, drop-drop, [], take-take-drop, lt→leb, leb→lt,
}
use tightbeam.Base.Stream.{Io, err, unexpected_eof, read_exact}
use tightbeam.Wire.{Frame, WireError, too_long, io, settle, saturating_add, read_frame, read_rest}

module _ (codec : Frame) where
  open codec use {Self, Cause}

  abbrev pub whole_of : List ℕ → ℕ
  whole_of s = saturating_add codec.head (codec.rest (take codec.head s))

  -- The stream's first frame, as one slice of it.
  abbrev pub first_frame : Io (WireError Cause) Self
  first_frame s =
      if leb codec.head (length s)
      then (if ltb codec.max (whole_of s)
          then err (too_long (whole_of s) codec.max) (drop codec.head s)
          else (if leb (whole_of s) (length s)
              then settle (codec.decode (take (whole_of s) s)) (drop (whole_of s) s)
              else err (io unexpected_eof) []))
      else err (io unexpected_eof) []

  rest_frame :
      (s : List ℕ)
      → codec.max < 2 ^ 64
      → codec.head ≤ length s
      → read_rest codec (take codec.head s) (drop codec.head s) ≡ (
          if ltb codec.max (whole_of s)
          then err (too_long (whole_of s) codec.max) (drop codec.head s)
          else (if leb (whole_of s) (length s)
              then settle (codec.decode (take (whole_of s) s)) (drop (whole_of s) s)
              else err (io unexpected_eof) []))
  unfolding read_rest read_exact
  rest_frame s small some =
      let b : codec.head ≤ codec.max = codec.bounds in
      let back : codec.head + (whole_of s - codec.head) ≡ whole_of s = omega arith in
      let left : length (drop codec.head s) ≡ length s - codec.head = length-drop codec.head s in
      elim (Bool-cases (ltb codec.max (whole_of s))) [
        | inl long ↦ rw (long) refl
        | inr short ↦ elim (Bool-cases (leb (whole_of s) (length s))) [
          | inl enough ↦
              let e : whole_of s ≤ length s = leb→le (whole_of s) (length s) enough in
              rw
                (
                  short,
                  enough,
                  le→leb (whole_of s - codec.head) (length (drop codec.head s)) (omega arith),
                  take-take-drop codec.head (whole_of s - codec.head) s,
                  drop-drop (whole_of s - codec.head) codec.head s,
                  back,
                )
                refl
          | inr cut ↦
              let e : length s < whole_of s = leb→lt (whole_of s) (length s) cut in
              rw
                (
                  short,
                  cut,
                  lt→leb (whole_of s - codec.head) (length (drop codec.head s)) (omega arith),
                )
                refl
        ]
      ]

  -- On every stream, under a cap that a usize holds, reading a frame is decoding the one slice of head and
  -- rest, with what follows untouched. A head that claims more than the cap is refused with only the
  -- head consumed, and a stream that ends inside the frame is an end of input.
  pub read_frame-first_frame :
      (s : List ℕ) → codec.max < 2 ^ 64 → read_frame codec s ≡ first_frame s
  unfolding read_frame read_exact
  read_frame-first_frame s small = elim (Bool-cases (leb codec.head (length s))) [
    | inl some ↦ rw (some) (rest_frame s small (leb→le codec.head (length s) some))
    | inr short ↦ rw (short) refl
  ]
