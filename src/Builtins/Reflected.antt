-- ===== src/Builtins/Reflected.antt =====
-- The reflector of src/builtins.rs.
use tightbeam.Base.{
  ℕ, ◌≤◌, ◌≡◌, refl, true, false, List, [], ◌∷◌, ◌++◌, ap, length, length-append, arith,
}
use tightbeam.Pump.{
  Copy, copy_from, Half, HalfTurn, half_turn, half_run, copying, is_broken, is_finished,
}
use tightbeam.Pump.Delivered.{copy_of, HalfKept, half_turn-HalfKept, finished_copied}
use tightbeam.Pump.Finished.{finish, half_run-finish}
use tightbeam.Builtins.{serve_echo}

half_run-HalfKept :
    (source : List ℕ) (ts : List HalfTurn) (h : Half)
    → HalfKept source h
    → HalfKept source (half_run ts h)
unfolding half_run
half_run-HalfKept source [] h k = k
half_run-HalfKept source (t ∷ ts) h k =
    half_run-HalfKept source ts (half_turn t h) (half_turn-HalfKept source t h k)

-- A reflector never amplifies: however its turns fall, what it has written is the start of what it was
-- sent, and no longer. When it has finished it has given all of it back, and until it fails some turns
-- lead there.
pub serve_echo-reflects :
    (peer : List ℕ) (ts : List HalfTurn)
    → ((rest : List ℕ) × ((copy_of (serve_echo peer ts)).written ++ rest ≡ peer))
      × (length ((copy_of (serve_echo peer ts)).written) ≤ length peer)
      × (is_finished (serve_echo peer ts) ≡ true → (copy_of (serve_echo peer ts)).written ≡ peer)
      × (is_broken (serve_echo peer ts) ≡ false
          → (more : List HalfTurn) × (is_finished (half_run more (serve_echo peer ts)) ≡ true))
unfolding serve_echo
serve_echo-reflects peer ts =
    let k =
      half_run-HalfKept peer ts (copying (copy_from peer))
        (record { kept = refl; delivered = λ no. absurd cc }) in
    let h : Half = serve_echo peer ts in
    let c : Copy = copy_of h in
    (
      (c.held ++ c.unread, k.kept),
      omega (arith, length-append c.written (c.held ++ c.unread), ap length k.kept),
      λ done. k.delivered (finished_copied h done),
      λ sound. (finish h, half_run-finish h sound),
    )
