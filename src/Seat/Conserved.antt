-- ===== src/Seat/Conserved.antt =====
-- The seat's cell and its guard together: the one reader is never duplicated and never lost.
use tightbeam.Base.{
  ℕ, suc, arith, ◌≡◌, ◌≢◌, refl, sym, ap, subst, ◌∙◌, Bool, true, false, not, ◌||◌, Option, none,
  some, List, ◌==◌, Bool-cases, inl, inr, ==→ne,
}
use tightbeam.Seat.Meter.{preemptible}
use tightbeam.Seat.Stalled.{Event, run, IsStalled, preemptible-IsStalled}
use tightbeam.Seat.{
  Cell, armed, held, handing, spent, Holder, Take, seated, waiting, refused, Lent, reading, ended,
  Back, kept, dropped, granted, told_spent, take, put_back, Polled, filled, failed, pending,
  is_ended,
}

-- The guard that has the reader, if one has, and whether any read has found its end or failed.
pub record World (Reader : Type 0) : Type 0 where
  pub cell : Cell Reader
  pub guard : Option Reader
  pub over : Bool

-- What a read says of the reader: a ready read that filled nothing of a buffer that had room is the end
-- of input, an error ends it, and a read that is pending or that filled something does not.
abbrev pub has_nothing : ℕ → Polled → Bool
has_nothing ℕ.zero (filled n) = false
has_nothing (suc room) (filled ℕ.zero) = true
has_nothing (suc room) (filled (suc n)) = false
has_nothing asked failed = true
has_nothing asked pending = false

or_false : (a : Bool) → a || false ≡ a
or_false true = refl
or_false false = refl

or_true : (a : Bool) → a || true ≡ true
or_true true = refl
or_true false = refl

is_ended-has_nothing :
    (asked : ℕ) (polled : Polled) → is_ended asked polled ≡ has_nothing asked polled
unfolding is_ended
is_ended-has_nothing ℕ.zero (filled n) = refl
is_ended-has_nothing (suc room) (filled ℕ.zero) = ground arith
is_ended-has_nothing (suc room) (filled (suc n)) = ground arith
is_ended-has_nothing asked failed = refl
is_ended-has_nothing asked pending = refl

module _ {Reader : Type 0} where
  abbrev pub lent_by : Take Reader → Option Reader → Option Reader
  lent_by (seated reader) guard = some reader
  lent_by (waiting told) guard = guard
  lent_by (refused refusal) guard = guard

  abbrev pub lent_on : Back Reader → Option Reader
  lent_on (granted reader) = some reader
  lent_on kept = none
  lent_on dropped = none
  lent_on told_spent = none

  -- `SeatReader::poll_read`, once its reader was polled: the guard gives up a reader that has ended.
  abbrev pub read_by : Reader → Bool → Bool → Cell Reader → Cell Reader × Option Reader
  read_by reader waits true cell =
      ((put_back ended waits cell).0, lent_on (put_back ended waits cell).1)
  read_by reader waits false cell = (cell, some reader)

  -- A dial, a write of the holder, the end of a splice, and a read of the lent reader.
  pub data Step : World Reader → World Reader → Type 0 where
    dials :
        (w : World Reader) (dialer now : ℕ)
        → Step w (record {
          cell = (take dialer now w.cell).0;
          guard = lent_by (take dialer now w.cell).1 w.guard;
          over = w.over;
        })
    writes :
        (w : World Reader) (holder after : Holder)
        → w.cell ≡ held holder
        → after.peer ≡ holder.peer
        → Step w (record { cell = held after; guard = w.guard; over = w.over })
    gives_back :
        (w : World Reader) (reader : Reader) (waits : Bool)
        → w.guard ≡ some reader
        → Step w (record {
          cell = (put_back (reading reader) waits w.cell).0;
          guard = lent_on (put_back (reading reader) waits w.cell).1;
          over = w.over;
        })
    reads :
        (w : World Reader) (reader : Reader) (waits : Bool) (asked : ℕ) (polled : Polled)
        → w.guard ≡ some reader
        → Step w (record {
          cell = (read_by reader waits (is_ended asked polled) w.cell).0;
          guard = (read_by reader waits (is_ended asked polled) w.cell).1;
          over = w.over || has_nothing asked polled;
        })

  pub data Steps : World Reader → World Reader → Type 0 where
    here : (w : World Reader) → Steps w w
    then_step : {a b c : World Reader} → Steps a b → Step b c → Steps a c

  abbrev pub begin : Reader → World Reader
  begin reader = record { cell = armed reader; guard = none; over = false }

  -- Where that one reader is, and what spends the seat.
  abbrev pub IsPlaced : Reader → Cell Reader → Option Reader → Bool → Type 0
  IsPlaced reader (armed r) guard over = (r ≡ reader) × (guard ≡ none) × (over ≡ false)
  IsPlaced reader (held holder) guard over = (guard ≡ some reader) × (over ≡ false)
  IsPlaced reader (handing dialer) guard over = (guard ≡ some reader) × (over ≡ false)
  IsPlaced reader spent guard over = (guard ≡ none) × (over ≡ true)

  take-IsPlaced :
      (reader : Reader) (dialer now : ℕ) (cell : Cell Reader) (guard : Option Reader) (over : Bool)
      → IsPlaced reader cell guard over
      → IsPlaced reader (take dialer now cell).0 (lent_by (take dialer now cell).1 guard) over
  unfolding take
  take-IsPlaced reader dialer now (armed r) guard over h = (ap some h.0, h.2)
  take-IsPlaced reader dialer now spent guard over h = h
  take-IsPlaced reader dialer now (handing d) guard over h = h
  take-IsPlaced reader dialer now (held holder) guard over h =
      elim (Bool-cases ((holder.peer == dialer) || not (preemptible now holder.meter))) [
        | inl stays ↦ rw (stays) h
        | inr goes ↦ rw (goes) h
      ]

  same_reader : {a b : Reader} → Option.some a ≡ some b → a ≡ b
  same_reader e = cc

  gives_back-IsPlaced :
      (reader r : Reader) (waits : Bool) (cell : Cell Reader) (guard : Option Reader) (over : Bool)
      → guard ≡ some r
      → IsPlaced reader cell guard over
      → IsPlaced reader
          (put_back (reading r) waits cell).0
          (lent_on (put_back (reading r) waits cell).1)
          over
  unfolding put_back
  gives_back-IsPlaced reader r waits (armed a) guard over e h = absurd (cc (sym e ∙ h.1))
  gives_back-IsPlaced reader r waits spent guard over e h = absurd (cc (sym e ∙ h.0))
  gives_back-IsPlaced reader r waits (held holder) guard over e h =
      (same_reader (sym e ∙ h.0), refl, h.1)
  gives_back-IsPlaced reader r true (handing d) guard over e h = (sym e ∙ h.0, h.1)
  gives_back-IsPlaced reader r false (handing d) guard over e h =
      (same_reader (sym e ∙ h.0), refl, h.1)

  finds_end-IsPlaced :
      (reader r : Reader) (waits : Bool) (cell : Cell Reader) (guard : Option Reader) (over : Bool)
      → guard ≡ some r
      → IsPlaced reader cell guard over
      → IsPlaced reader (put_back ended waits cell).0 (lent_on (put_back ended waits cell).1) true
  unfolding put_back
  finds_end-IsPlaced reader r waits (armed a) guard over e h = absurd (cc (sym e ∙ h.1))
  finds_end-IsPlaced reader r waits spent guard over e h = absurd (cc (sym e ∙ h.0))
  finds_end-IsPlaced reader r waits (held holder) guard over e h = (refl, refl)
  finds_end-IsPlaced reader r waits (handing d) guard over e h = (refl, refl)

  reads-IsPlaced :
      (reader r : Reader) (waits finds : Bool) (cell : Cell Reader) (guard : Option Reader)
      (over : Bool)
      → guard ≡ some r
      → IsPlaced reader cell guard over
      → IsPlaced reader
          (read_by r waits finds cell).0
          (read_by r waits finds cell).1
          (over || finds)
  reads-IsPlaced reader r waits true cell guard over e h =
      rw (or_true over) (finds_end-IsPlaced reader r waits cell guard over e h)
  reads-IsPlaced reader r waits false cell guard over e h =
      rw (or_false over) (subst (λ g. IsPlaced reader cell g over) e h)

  Step-IsPlaced :
      (reader : Reader) {a b : World Reader}
      → Step a b
      → IsPlaced reader a.cell a.guard a.over
      → IsPlaced reader b.cell b.guard b.over
  Step-IsPlaced reader (dials w dialer now) h =
      take-IsPlaced reader dialer now w.cell w.guard w.over h
  Step-IsPlaced reader (writes w holder after e p) h =
      subst (λ c. IsPlaced reader c w.guard w.over) e h
  Step-IsPlaced reader (gives_back w r waits e) h =
      gives_back-IsPlaced reader r waits w.cell w.guard w.over e h
  Step-IsPlaced reader (reads w r waits asked polled e) h =
      subst
        (λ b.
          IsPlaced reader (read_by r waits b w.cell).0 (read_by r waits b w.cell).1
            (w.over || has_nothing asked polled))
        (sym (is_ended-has_nothing asked polled))
        (reads-IsPlaced reader r waits (has_nothing asked polled) w.cell w.guard w.over e h)

  later-IsPlaced :
      (reader : Reader) {a b : World Reader}
      → Steps a b
      → IsPlaced reader a.cell a.guard a.over
      → IsPlaced reader b.cell b.guard b.over
  later-IsPlaced reader (here w) h = h
  later-IsPlaced reader (then_step s t) h = Step-IsPlaced reader t (later-IsPlaced reader s h)

  -- The one reader is always in exactly one place, the cell while nobody holds the seat and the guard
  -- while somebody does, until a read finds the end of input or fails: the seat is spent exactly when one
  -- has. A read that is pending, that fills something or that had no room does not spend it.
  pub reader_kept :
      (reader : Reader) (w : World Reader)
      → Steps (begin reader) w
      → IsPlaced reader w.cell w.guard w.over
  reader_kept reader w s = later-IsPlaced reader s (refl, refl, refl)

  guard_not-stray :
      (reader r : Reader) (lent : Lent Reader) (waits : Bool) (cell : Cell Reader)
      (guard : Option Reader) (over : Bool)
      → guard ≡ some r
      → IsPlaced reader cell guard over
      → (put_back lent waits cell).1 ≢ dropped
  unfolding put_back
  guard_not-stray reader r lent waits (armed a) guard over e h = absurd (cc (sym e ∙ h.1))
  guard_not-stray reader r lent waits spent guard over e h = absurd (cc (sym e ∙ h.0))
  guard_not-stray reader r ended waits (held holder) guard over e h = λ d. cc
  guard_not-stray reader r ended waits (handing dialer) guard over e h = λ d. cc
  guard_not-stray reader r (reading b) waits (held holder) guard over e h = λ d. cc
  guard_not-stray reader r (reading b) true (handing dialer) guard over e h = λ d. cc
  guard_not-stray reader r (reading b) false (handing dialer) guard over e h = λ d. cc

  -- A guard that still has the reader never brings it back to a seat that would drop it.
  pub never_stray :
      (reader r : Reader) (w : World Reader) (lent : Lent Reader) (waits : Bool)
      → Steps (begin reader) w
      → w.guard ≡ some r
      → (put_back lent waits w.cell).1 ≢ dropped
  never_stray reader r w lent waits s e =
      guard_not-stray reader r lent waits w.cell w.guard w.over e (reader_kept reader w s)

  -- A dialer that is made to wait for the seat displaces its holder and no one else; that is another
  -- peer, and one that took less than the minimum in the whole last stall window.
  pub take-waiting :
      (dialer now told : ℕ) (holder : Holder) (es : List Event)
      → holder.meter ≡ run es
      → (take {Reader = Reader} dialer now (held holder)).1 ≡ waiting told
      → (told ≡ holder.peer) × (holder.peer ≢ dialer) × IsStalled es now
  unfolding take
  take-waiting dialer now told holder es m h = elim (Bool-cases (holder.peer == dialer)) [
    | inl same ↦ absurd (cc (rw (same) at h))
    | inr other ↦ elim (Bool-cases (preemptible now holder.meter)) [
      | inl stalled ↦ (
        cc (rw (other, stalled) at h),
        ==→ne holder.peer dialer other,
        preemptible-IsStalled es now (rw (m) at stalled),
      )
      | inr moving ↦ absurd (cc (rw (other, moving) at h))
    ]
  ]
