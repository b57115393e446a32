-- ===== src/Pump/Finished.antt =====
-- A splice that has not failed can end.
use tightbeam.Base.{
  ◌≡◌, ◌≢◌, refl, ap, ◌∙◌, Bool, true, false, ◌&&◌, ◌||◌, List, [], ◌∷◌, ◌++◌, map, All, drop_all,
  length, if◌then◌else◌,
}
use tightbeam.Pump.{
  Copy, reads, writes, moved, is_copied, Half, copying, shutting, finished, broken, HalfTurn, moves,
  copied, shut, fails, half_turn, half_run, Splice, Outcome, pending, succeeded, failed, is_broken,
  is_finished, outcome, Side, up, down, side_turn, while_pending, splice_run,
}

-- The reader ends, the writer takes what is held, and shuts down.
abbrev pub drained : Copy → Copy
drained c = moved (reads (length c.unread)) c

abbrev pub finish : Half → List HalfTurn
finish (copying c) =
    moves (reads (length c.unread))
    ∷ moves (writes (length ((drained c).held)))
    ∷ copied
    ∷ shut
    ∷ []
finish (shutting c) = shut ∷ []
finish (finished c) = []
finish (broken c) = []

pub half_run-finish : (h : Half) → is_broken h ≡ false → is_finished (half_run (finish h) h) ≡ true
unfolding half_run
half_run-finish (copying c) h = rw (drop_all c.unread, drop_all ((drained c).held)) refl
half_run-finish (shutting c) h = refl
half_run-finish (finished c) h = refl
half_run-finish (broken c) h = absurd cc

abbrev is_calm : HalfTurn → Bool
is_calm fails = false
is_calm (moves m) = true
is_calm copied = true
is_calm shut = true

half_turn_unbroken :
    (t : HalfTurn) (h : Half)
    → is_calm t ≡ true
    → is_broken h ≡ false
    → is_broken (half_turn t h) ≡ false
half_turn_unbroken fails h calm sound = absurd cc
half_turn_unbroken t (broken c) calm sound = absurd cc
half_turn_unbroken copied (copying c) calm sound = by_end (is_copied c)
  where
    by_end : (b : Bool) → is_broken (if b then shutting c else copying c) ≡ false
    by_end true = refl
    by_end false = refl
half_turn_unbroken t h calm sound = refl

goes_on :
    (side : Side) (t : HalfTurn) (u d : Half)
    → is_broken u ≡ false
    → is_broken d ≡ false
    → while_pending
        (outcome (record { upstream = u; downstream = d }))
        (record { upstream = u; downstream = d })
        (side_turn side t (record { upstream = u; downstream = d }))
      ≡ side_turn side t (record { upstream = u; downstream = d })
unfolding outcome
goes_on side t (broken c) d hu hd = absurd cc
goes_on side t u (broken c) hu hd = absurd cc
goes_on up t (finished c) (finished c') hu hd = refl
goes_on down t (finished c) (finished c') hu hd = refl
goes_on side t u d hu hd = refl

abbrev AllCalm : List HalfTurn → Type 0
AllCalm ts = All (λ t. is_calm t ≡ true) ts

finish-AllCalm : (h : Half) → AllCalm (finish h)
finish-AllCalm (copying c) = (refl, (refl, (refl, (refl, tt))))
finish-AllCalm (shutting c) = (refl, tt)
finish-AllCalm (finished c) = tt
finish-AllCalm (broken c) = tt

abbrev on : Side → List HalfTurn → List (Side × HalfTurn)
on side ts = map (λ t. (side, t)) ts

abbrev of_halves : Half → Half → Splice
of_halves u d = record { upstream = u; downstream = d }

run_up :
    (ts : List HalfTurn) (u d : Half)
    → AllCalm ts
    → is_broken u ≡ false
    → is_broken d ≡ false
    → splice_run (on up ts) (of_halves u d) ≡ of_halves (half_run ts u) d
unfolding splice_run half_run
run_up [] u d calm hu hd = refl
run_up (t ∷ ts) u d calm hu hd =
    ap (splice_run (on up ts)) (goes_on up t u d hu hd)
    ∙ run_up ts (half_turn t u) d calm.1 (half_turn_unbroken t u calm.0 hu) hd

run_down :
    (ts : List HalfTurn) (u d : Half)
    → AllCalm ts
    → is_broken u ≡ false
    → is_broken d ≡ false
    → splice_run (on down ts) (of_halves u d) ≡ of_halves u (half_run ts d)
unfolding splice_run half_run
run_down [] u d calm hu hd = refl
run_down (t ∷ ts) u d calm hu hd =
    ap (splice_run (on down ts)) (goes_on down t u d hu hd)
    ∙ run_down ts u (half_turn t d) calm.1 hu (half_turn_unbroken t d calm.0 hd)

splice_run-append :
    (xs ys : List (Side × HalfTurn)) (s : Splice)
    → splice_run (xs ++ ys) s ≡ splice_run ys (splice_run xs s)
unfolding splice_run
splice_run-append [] ys s = refl
splice_run-append ((side, t) ∷ xs) ys s =
    splice_run-append xs ys (while_pending (outcome s) s (side_turn side t s))

finished_unbroken : (h : Half) → is_finished h ≡ true → is_broken h ≡ false
finished_unbroken (copying c) h = refl
finished_unbroken (shutting c) h = refl
finished_unbroken (finished c) h = refl
finished_unbroken (broken c) h = absurd cc

both_finished :
    (u d : Half) → is_finished u ≡ true → is_finished d ≡ true → outcome (of_halves u d) ≡ succeeded
unfolding outcome
both_finished u d hu hd = rw (finished_unbroken u hu, finished_unbroken d hd, hu, hd) refl

unbroken_finishes :
    (u d : Half)
    → is_broken u ≡ false
    → is_broken d ≡ false
    → (ts : List (Side × HalfTurn)) × (outcome (splice_run ts (of_halves u d)) ≡ succeeded)
unbroken_finishes u d hu hd =
    let u' : Half = half_run (finish u) u in
    let hu' : is_finished u' ≡ true = half_run-finish u hu in
    (
      on up (finish u) ++ on down (finish d),
      ap outcome (
            splice_run-append (on up (finish u)) (on down (finish d)) (of_halves u d)
            ∙ (ap (splice_run (on down (finish d))) (run_up (finish u) u d (finish-AllCalm u) hu hd)
                ∙ run_down (finish d) u' d (finish-AllCalm d) (finished_unbroken u' hu') hd))
          ∙ both_finished u' (half_run (finish d) d) hu' (half_run-finish d hd),
    )

not_failed :
    (a b c : Bool)
    → (if a || b then Outcome.failed else if c then succeeded else pending) ≢ failed
    → (a ≡ false) × (b ≡ false)
not_failed true b c h = absurd (h refl)
not_failed false true c h = absurd (h refl)
not_failed false false c h = (refl, refl)

-- As long as no half has failed, some turns end the splice.
pub unfailed_finishes :
    (s : Splice)
    → outcome s ≢ failed
    → (ts : List (Side × HalfTurn)) × (outcome (splice_run ts s) ≡ succeeded)
unfolding outcome
unfailed_finishes s h =
    let (hu, hd) =
      not_failed (is_broken s.upstream) (is_broken s.downstream)
        (is_finished s.upstream && is_finished s.downstream) h in
    unbroken_finishes s.upstream s.downstream hu hd
