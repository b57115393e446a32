-- ===== src/Fanout/Lasting.antt =====
-- An until-EOF pump against its viewers: only the source ends it.
use tightbeam.Base.{
  ◌≡◌, refl, ap, ◌∙◌, Bool, true, false, Option, none, some, [], ◌∷◌, not, ◌||◌, Bool-cases, inl,
  inr, Option-cases, subst,
}
use tightbeam.Fanout.{
  Ring, Cursor, Shared, Pump, idle, closing, ended, checking, reading, leaving, Read, got, failed,
  Life, until_eof, open_cursor, drop_cursor, pump_step, released,
}
use tightbeam.Fanout.Session.{
  World, Step, Steps, attaches, pumps, reads, leaves, here, then_step, begin, is_past, finds_end,
}

or-true : (b : Bool) → b || true ≡ true
or-true true = refl
or-true false = refl

kept_over : (p b c : Bool) → not p || b ≡ true → not p || (b || c) ≡ true
kept_over false b c h = refl
kept_over true true c h = refl
kept_over true false c h = absurd cc

-- The loop was left only over an input that had ended.
record Lasts {Source : Type 0} (w : World Source) : Type 0 where
  kind : w.shared.life.lifetime ≡ until_eof
  only_at_end : not (is_past w.shared.pump) || w.over ≡ true

module _ {Source : Type 0} where
  pump_step-past :
      (read : Read) (ring : Ring) (life : Life Source) (pump : Pump Source) (over : Bool)
      → life.lifetime ≡ until_eof
      → not (is_past pump) || over ≡ true
      → not (is_past (pump_step read (record { ring = ring; life = life; pump = pump })).pump)
          || (over || finds_end pump read)
        ≡ true
  unfolding pump_step released
  pump_step-past read ring life idle over k h = refl
  pump_step-past read ring life (checking s) over k h = rw (k) refl
  pump_step-past failed ring life (reading s) over k h = or-true over
  pump_step-past (got []) ring life (reading s) over k h = or-true over
  pump_step-past (got (b ∷ bs)) ring life (reading s) over k h = refl
  pump_step-past read ring life (leaving s) over k h = kept_over true over false h
  pump_step-past read ring life closing over k h = kept_over true over false h
  pump_step-past read ring life ended over k h = kept_over true over false h

  pump_step-life :
      (read : Read) (ring : Ring) (life : Life Source) (pump : Pump Source)
      → (pump_step read (record { ring = ring; life = life; pump = pump })).life ≡ life
  unfolding pump_step
  pump_step-life read ring life idle = refl
  pump_step-life read ring life (checking s) = elim (Bool-cases (released life)) [
    | inl free ↦ rw (free) refl
    | inr kept ↦ rw (kept) refl
  ]
  pump_step-life failed ring life (reading s) = refl
  pump_step-life (got []) ring life (reading s) = refl
  pump_step-life (got (b ∷ bs)) ring life (reading s) = refl
  pump_step-life read ring life (leaving s) = refl
  pump_step-life read ring life closing = refl
  pump_step-life read ring life ended = refl

  -- A session after an attempt to attach.
  Attached : World Source → Option Cursor × Shared Source → Type 0
  Attached w (none, after) = Unit
  Attached w (some c, after) =
      Lasts (record { shared = after; cursors = c ∷ w.cursors; feed = w.feed; over = w.over })

  open_cursor-Attached : (w : World Source) → Lasts w → Attached w (open_cursor w.shared)
  unfolding open_cursor Attached
  open_cursor-Attached w h = elim (Option-cases w.shared.life.source) [
    | inl gone ↦ elim (Bool-cases w.shared.ring.closed) [
      | inl shut ↦ rw (gone, shut) tt
      | inr runs ↦ rw (gone, runs) (record { kind = h.kind; only_at_end = h.only_at_end })
    ]
    | inr (source, held) ↦ rw (held) (record { kind = h.kind; only_at_end = refl })
  ]

  Step-Lasts : {a b : World Source} → Step a b → Lasts a → Lasts b
  unfolding drop_cursor Attached
  Step-Lasts (attaches w c after e) h = subst (Attached w) e (open_cursor-Attached w h)
  Step-Lasts (pumps w read) h = record {
    kind =
        ap (λ l. l.lifetime) (pump_step-life read w.shared.ring w.shared.life w.shared.pump)
        ∙ h.kind;
    only_at_end =
        pump_step-past read w.shared.ring w.shared.life w.shared.pump w.over h.kind h.only_at_end;
  }
  Step-Lasts (reads w before behind c remaining e) h = record {
    kind = h.kind;
    only_at_end = h.only_at_end;
  }
  Step-Lasts (leaves w before behind c e) h = record { kind = h.kind; only_at_end = h.only_at_end }

  later-Lasts : {a b : World Source} → Steps a b → Lasts a → Lasts b
  later-Lasts (here w) h = h
  later-Lasts (then_step s t) h = Step-Lasts t (later-Lasts s h)

  past-over : (w : World Source) → Lasts w → is_past w.shared.pump ≡ true → w.over ≡ true
  past-over w h past = cc (rw (past) at h.only_at_end)

  -- The pump of an until-EOF source leaves its loop only after a read that found the input's end or
  -- failed, whoever attached or left meanwhile.
  pub until_eof-over :
      (source : Source) (w : World Source)
      → Steps (begin source until_eof) w
      → is_past w.shared.pump ≡ true
      → w.over ≡ true
  until_eof-over source w s past =
      past-over w (later-Lasts s (record { kind = refl; only_at_end = refl })) past
