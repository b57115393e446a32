-- ===== src/Wire.antt =====
-- tightbeam-handler/src/wire.rs: one control frame off a shared stream. A service's codec is a
-- parameter. The reservations are not modelled, and a `usize` is 64 bits wide.
pub mod Exact
pub mod Cap
use tightbeam.Base.{
  ℕ, ◌+◌, ◌-◌, ◌^◌, ◌≤◌, ◌≡◌, min, List, ◌++◌, length, take, drop, ltb, if◌then◌else◌,
}
use tightbeam.Base.Stream.{Io, IoError, ◌>>=◌, ◌>>◌, fail, read_exact, write_all, map_err, return}
use tightbeam.Base.Results.{Result}

pub data WireError (C : Type 0) : Type 0 where
  too_long : (declared max : ℕ) → WireError C
  malformed : C → WireError C
  io : IoError → WireError C

-- The trait's functions and constants. `Cause` is what a service's own decoder calls malformed.
pub record Frame : Type 1 where
  pub Self : Type 0
  pub Cause : Type 0
  pub max : ℕ
  pub head : ℕ
  pub rest : List ℕ → ℕ
  pub encode : Self → List ℕ
  pub decode : List ℕ → Result (WireError Cause) Self
  pub bounds : head ≤ max

abbrev pub usize_max : ℕ
usize_max = 2 ^ 64 - 1

abbrev pub saturating_add : ℕ → ℕ → ℕ
saturating_add a b = min (a + b) usize_max

-- A decoder's answer, with nothing read.
abbrev pub settle : {C F : Type 0} → Result (WireError C) F → Io (WireError C) F
settle (Result.ok f) = return f
settle (Result.err e) = fail e

module _ (codec : Frame) where
  open codec use {Self, Cause}

  -- What follows the head, unless the head claims too much.
  unfoldable pub read_rest : List ℕ → Io (WireError Cause) Self
  read_rest bytes =
      let whole = saturating_add codec.head (codec.rest bytes) in
      if ltb codec.max whole
      then fail (too_long whole codec.max)
      else (map_err io (read_exact (whole - codec.head)) >>= λ more.
          settle (codec.decode (bytes ++ more)))

  unfoldable pub read_frame : Io (WireError Cause) Self
  unfolding read_rest
  read_frame = map_err io (read_exact codec.head) >>= read_rest

  unfoldable pub write_frame : Self → Io (WireError Cause) (Unit {0})
  write_frame frame =
      let out = codec.encode frame in
      if ltb codec.max (length out) then fail (too_long (length out) codec.max) else write_all out
