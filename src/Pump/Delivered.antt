-- ===== src/Pump/Delivered.antt =====
-- What a splice delivers.
use tightbeam.Base.{
  ℕ, ◌≡◌, ◌≢◌, refl, sym, ◌∙◌, Bool, true, false, ◌&&◌, ◌||◌, List, [], ◌∷◌, ◌++◌, take, drop,
  if◌then◌else◌, take-append-drop, append_assoc, append-nil, Bool-cases, inl, inr,
}
use tightbeam.Pump.{
  Copy, Move, reads, writes, moved, is_nil, is_copied, Half, copying, shutting, finished, broken,
  HalfTurn, moves, copied, shut, fails, copy_turn, shut_turn, half_turn, Splice, Outcome, pending,
  succeeded, failed, is_broken, is_finished, outcome, Side, up, down, side_turn, while_pending,
  splice, splice_run,
}
use tightbeam.Pump.Finished.{unfailed_finishes}

abbrev pub all_bytes : Copy → List ℕ
all_bytes c = c.written ++ (c.held ++ c.unread)

pub moved-all_bytes : (m : Move) (c : Copy) → all_bytes (moved m c) ≡ all_bytes c
moved-all_bytes (reads n) c =
    rw (append_assoc c.held (take n c.unread) (drop n c.unread), take-append-drop n c.unread) refl
moved-all_bytes (writes n) c =
    rw
      (
        append_assoc c.written (take n c.held) (drop n c.held ++ c.unread),
        ← append_assoc (take n c.held) (drop n c.held) c.unread,
        take-append-drop n c.held,
      )
      refl

pub is_nil-eq : (xs : List ℕ) → is_nil xs ≡ true → xs ≡ []
is_nil-eq [] h = refl
is_nil-eq (x ∷ xs) h = absurd cc

-- A copy that returns has written everything.
pub is_copied-written : (c : Copy) → is_copied c ≡ true → c.written ≡ all_bytes c
is_copied-written c h = by_parts c.held c.unread h
  where
    by_parts :
        (held unread : List ℕ)
        → is_nil unread && is_nil held ≡ true
        → c.written ≡ c.written ++ (held ++ unread)
    by_parts [] [] h' = sym (append-nil c.written)
    by_parts [] (x ∷ xs) h' = absurd cc
    by_parts (y ∷ ys) [] h' = absurd cc
    by_parts (y ∷ ys) (x ∷ xs) h' = absurd cc

abbrev pub copy_of : Half → Copy
copy_of (copying c) = c
copy_of (shutting c) = c
copy_of (finished c) = c
copy_of (broken c) = c

abbrev pub has_copied : Half → Bool
has_copied (copying c) = false
has_copied (shutting c) = true
has_copied (finished c) = true
has_copied (broken c) = false

pub record HalfKept (source : List ℕ) (h : Half) : Type 0 where
  pub kept : all_bytes (copy_of h) ≡ source
  pub delivered : has_copied h ≡ true → (copy_of h).written ≡ source

copy_turn-HalfKept :
    (source : List ℕ) (t : HalfTurn) (c : Copy)
    → all_bytes c ≡ source
    → HalfKept source (copy_turn t c)
copy_turn-HalfKept source (moves m) c h = record {
  kept = moved-all_bytes m c ∙ h;
  delivered = λ no. absurd cc;
}
copy_turn-HalfKept source copied c h = elim (Bool-cases (is_copied c)) [
  | inl done ↦ rw (done) (record { kept = h; delivered = λ _. is_copied-written c done ∙ h })
  | inr more ↦ rw (more) (record { kept = h; delivered = λ no. absurd cc })
]
copy_turn-HalfKept source shut c h = record { kept = h; delivered = λ no. absurd cc }
copy_turn-HalfKept source fails c h = record { kept = h; delivered = λ no. absurd cc }

shut_turn-HalfKept :
    (source : List ℕ) (t : HalfTurn) (c : Copy)
    → HalfKept source (shutting c)
    → HalfKept source (shut_turn t c)
shut_turn-HalfKept source (moves m) c h = h
shut_turn-HalfKept source copied c h = h
shut_turn-HalfKept source shut c h = record { kept = h.kept; delivered = λ _. h.delivered refl }
shut_turn-HalfKept source fails c h = record { kept = h.kept; delivered = λ no. absurd cc }

pub half_turn-HalfKept :
    (source : List ℕ) (t : HalfTurn) (h : Half)
    → HalfKept source h
    → HalfKept source (half_turn t h)
half_turn-HalfKept source t (copying c) k = copy_turn-HalfKept source t c k.kept
half_turn-HalfKept source t (shutting c) k = shut_turn-HalfKept source t c k
half_turn-HalfKept source t (finished c) k = k
half_turn-HalfKept source t (broken c) k = k

abbrev BothKept : List ℕ → List ℕ → Splice → Type 0
BothKept local peer s = HalfKept local s.upstream × HalfKept peer s.downstream

turn-BothKept :
    (local peer : List ℕ) (side : Side) (t : HalfTurn) (s : Splice) (o : Outcome)
    → BothKept local peer s
    → BothKept local peer (while_pending o s (side_turn side t s))
turn-BothKept local peer up t s pending (u, d) = (half_turn-HalfKept local t s.upstream u, d)
turn-BothKept local peer down t s pending (u, d) = (u, half_turn-HalfKept peer t s.downstream d)
turn-BothKept local peer side t s succeeded k = k
turn-BothKept local peer side t s failed k = k

run-BothKept :
    (local peer : List ℕ) (ts : List (Side × HalfTurn)) (s : Splice)
    → BothKept local peer s
    → BothKept local peer (splice_run ts s)
unfolding splice_run
run-BothKept local peer [] s k = k
run-BothKept local peer ((side, t) ∷ ts) s k =
    run-BothKept local peer ts (while_pending (outcome s) s (side_turn side t s))
      (turn-BothKept local peer side t s (outcome s) k)

pub finished_copied : (h : Half) → is_finished h ≡ true → has_copied h ≡ true
finished_copied (copying c) h = absurd cc
finished_copied (shutting c) h = refl
finished_copied (finished c) h = refl
finished_copied (broken c) h = absurd cc

all_done :
    (a b c d : Bool)
    → (if a || b then Outcome.failed else if c && d then succeeded else pending) ≡ succeeded
    → (c ≡ true) × (d ≡ true)
all_done true b c d h = absurd cc
all_done false true c d h = absurd cc
all_done false false false d h = absurd cc
all_done false false true false h = absurd cc
all_done false false true true h = (refl, refl)

-- A splice loses nothing and changes no order. However its turns fall, what each writer has taken, with
-- what the copy holds and what the reader still gives, is what that side sent; once the splice has
-- succeeded, each side has what the other sent, whole; and until a half has failed, some turns lead there.
pub splice_run-delivers :
    (local peer : List ℕ) (ts : List (Side × HalfTurn))
    → (all_bytes (copy_of (splice_run ts (splice local peer)).upstream) ≡ local)
      × (all_bytes (copy_of (splice_run ts (splice local peer)).downstream) ≡ peer)
      × (outcome (splice_run ts (splice local peer)) ≡ succeeded
          → ((copy_of (splice_run ts (splice local peer)).upstream).written ≡ local)
            × ((copy_of (splice_run ts (splice local peer)).downstream).written ≡ peer))
      × (outcome (splice_run ts (splice local peer)) ≢ failed
          → (more : List (Side × HalfTurn)) × (outcome
                (splice_run more (splice_run ts (splice local peer)))
              ≡ succeeded))
unfolding outcome
splice_run-delivers local peer ts =
    let start : BothKept local peer (splice local peer) = (
      record { kept = refl; delivered = λ no. absurd cc },
      record { kept = refl; delivered = λ no. absurd cc },
    ) in
    let (u, d) = run-BothKept local peer ts (splice local peer) start in
    let s : Splice = splice_run ts (splice local peer) in
    (
      u.kept,
      d.kept,
      (λ ended.
          let (fu, fd) =
            all_done (is_broken s.upstream) (is_broken s.downstream) (is_finished s.upstream)
              (is_finished s.downstream) ended in
          (
            u.delivered (finished_copied s.upstream fu),
            d.delivered (finished_copied s.downstream fd),
          )),
      unfailed_finishes s,
    )
