-- ===== src/Fanout/Window.antt =====
-- The ring against the whole feed: it holds the newest bytes, as many as it may.
use tightbeam.Base.{
  ℕ, ◌+◌, ◌-◌, ◌≡◌, refl, min, Bool, List, ◌++◌, length, drop, arith, length-append, length-drop,
  drop-drop, drop-append,
}
use tightbeam.Fanout.{Ring, ring_bytes, append}

-- What the ring holds of a feed: its last `ring_bytes` bytes, at their absolute offsets.
abbrev pub window : List ℕ → Bool → Ring
window feed closed = record {
  buf = drop (length feed - ring_bytes) feed;
  base = length feed - ring_bytes;
  closed = closed;
}

same_ring :
    {buf buf' : List ℕ} {base base' : ℕ} (closed : Bool)
    → buf ≡ buf'
    → base ≡ base'
    → ◌≡◌ {A = Ring}
        (record { buf = buf; base = base; closed = closed })
        (record { buf = buf'; base = base'; closed = closed })
same_ring closed p q = rw (p, q) refl

-- Appending to the window of a feed gives the window of the longer feed, whatever the sizes: the ring
-- holds the newest bytes, as many as it may, each at its absolute offset.
pub append-window :
    (feed bytes : List ℕ) (closed : Bool)
    → append bytes (window feed closed) ≡ window (feed ++ bytes) closed
unfolding append
append-window feed bytes closed =
    let r : ℕ = ring_bytes in
    let n : ℕ = length feed in
    let m : ℕ = length bytes in
    let held : length (drop (n - r) feed) ≡ n - (n - r) = length-drop (n - r) feed in
    let size : length (feed ++ bytes) ≡ n + m = length-append feed bytes in
    let fits : (n - r) + min (n - (n - r) + m - r) (n - (n - r)) ≡ min (n + m - r) n =
      omega arith in
    let rest : n - (n - r) + m - r - min (n - (n - r) + m - r) (n - (n - r)) ≡ n + m - r - n =
      omega arith in
    same_ring closed
      (rw
        (
          held,
          size,
          drop-append (n + m - r) feed bytes,
          drop-drop (min (n - (n - r) + m - r) (n - (n - r))) (n - r) feed,
          fits,
          rest,
        )
        refl)
      (rw (held, size) (omega arith))
