-- ===== src/Wire/Cap.antt =====
-- The writer against the reader: one cap for both.
use tightbeam.Base.{
  ℕ, ◌+◌, ◌^◌, ◌≤◌, ◌<◌, ◌≡◌, refl, List, ◌++◌, length, take, drop, arith, le→leb, lt→ltb, le→ltb,
  take-length, drop-length, length-append, take-prefix,
}
use tightbeam.Base.Stream.{ok, err}
use tightbeam.Base.Results.{Result}
use tightbeam.Wire.{Frame, too_long, read_frame, write_frame}
use tightbeam.Wire.Exact.{whole_of, read_frame-first_frame}

-- What the trait asks of an encoder and its decoder, for one frame: the head states the length,
-- and the decoder reads back what was encoded.
pub record Keeps (codec : Frame) (frame : codec.Self) : Type 0 where
  pub opens : codec.head ≤ length (codec.encode frame)
  pub states_length :
      codec.head + codec.rest (take codec.head (codec.encode frame)) ≡ length (codec.encode frame)
  pub reads_back : codec.decode (codec.encode frame) ≡ Result.ok frame
  pub addressable : length (codec.encode frame) < 2 ^ 64

module _ (codec : Frame) (frame : codec.Self) (keeps : Keeps codec frame) where
  open codec use {Self, Cause}

  whole_of-encode :
      (after : List ℕ) → whole_of codec (codec.encode frame ++ after) ≡ length (codec.encode frame)
  whole_of-encode after =
      rw (take-prefix codec.head (codec.encode frame) after keeps.opens, keeps.states_length)
        (omega (arith, keeps.addressable))

  -- A frame within the cap goes out whole, and the reader takes exactly it.
  pub write_frame-read_frame :
      (out after : List ℕ)
      → codec.max < 2 ^ 64
      → length (codec.encode frame) ≤ codec.max
      → (write_frame codec frame out ≡ ok tt (out ++ codec.encode frame))
        × (read_frame codec (codec.encode frame ++ after) ≡ ok frame after)
  unfolding write_frame
  write_frame-read_frame out after small fits = (
    rw (le→ltb codec.max (length (codec.encode frame)) fits) refl,
    rw
        (
          read_frame-first_frame codec (codec.encode frame ++ after) small,
          whole_of-encode after,
          le→leb codec.head (length (codec.encode frame ++ after))
              (omega (arith, keeps.opens, length-append (codec.encode frame) after)),
          le→ltb codec.max (length (codec.encode frame)) fits,
          le→leb (length (codec.encode frame)) (length (codec.encode frame ++ after))
              (omega (arith, length-append (codec.encode frame) after)),
          take-length (codec.encode frame) after,
          drop-length (codec.encode frame) after,
          keeps.reads_back,
        )
        refl,
  )

  -- The frame that would not be read is the frame that is not written.
  pub cap_agrees :
      (out after : List ℕ)
      → codec.max < length (codec.encode frame)
      → (write_frame codec frame out ≡ err (too_long (length (codec.encode frame)) codec.max) out)
        × (read_frame codec (codec.encode frame ++ after)
            ≡ err
                (too_long (length (codec.encode frame)) codec.max)
                (drop codec.head (codec.encode frame ++ after)))
  unfolding write_frame
  cap_agrees out after long = (
    rw (lt→ltb codec.max (length (codec.encode frame)) long) refl,
    rw
        (
          read_frame-first_frame codec (codec.encode frame ++ after)
              (omega (arith, keeps.addressable)),
          whole_of-encode after,
          le→leb codec.head (length (codec.encode frame ++ after))
              (omega (arith, keeps.opens, length-append (codec.encode frame) after)),
          lt→ltb codec.max (length (codec.encode frame)) long,
        )
        refl,
  )
