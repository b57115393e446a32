-- ===== src/Fanout/Promises.antt =====
-- What the fan-out promises of every session.
use tightbeam.Base.{
  ◌+◌, ◌-◌, ◌≤◌, ◌≡◌, ◌↔◌, refl, sym, ap, subst, ◌∙◌, true, false, Option, none, some, length,
  arith, length-drop, Bool-cases, inl, inr, is_some, Option-cases, ◌⊎◌, if◌then◌else◌,
}
use tightbeam.Fanout.{
  Shared, Pump, idle, closing, ended, checking, reading, leaving, Lifetime, open_cursor, ring_bytes,
}
use tightbeam.Fanout.Session.{
  World, Steps, begin, is_idle, is_ended, armed, pumped, readers, IsInPhase,
}
use tightbeam.Fanout.Soundness.{Steps-IsSound}

module _ {Source : Type 0} where
  -- Whatever the consumers do, the ring never holds more than its ceiling.
  pub ring_bound :
      (source : Source) (lifetime : Lifetime) (w : World Source)
      → Steps (begin source lifetime) w
      → length w.shared.ring.buf ≤ ring_bytes
  ring_bound source lifetime w s =
      let h = Steps-IsSound source lifetime w s in
      subst (λ r. length r.buf ≤ ring_bytes) (sym h.windowed)
        (omega (arith, length-drop (length w.feed - ring_bytes) w.feed))

  armed-is_some : (source : Option Source) → armed source ≡ (if is_some source then 1 else 0)
  armed-is_some none = refl
  armed-is_some (some s) = refl

  slots :
      (pump : Pump Source)
      → ((if is_idle pump then 1 else 0) + pumped pump ≤ 1)
        × (((if is_idle pump then 1 else 0) + pumped pump ≡ 0) ⊎ (is_ended pump ≡ false))
  slots idle = (omega arith, inr refl)
  slots (checking s) = (omega arith, inr refl)
  slots (reading s) = (omega arith, inr refl)
  slots (leaving s) = (omega arith, inr refl)
  slots closing = (omega arith, inr refl)
  slots ended = (omega arith, inl refl)

  ended-is_ended : (pump : Pump Source) → is_ended pump ≡ true → pump ≡ ended
  ended-is_ended ended h = refl
  ended-is_ended idle h = absurd cc
  ended-is_ended (checking s) h = absurd cc
  ended-is_ended (reading s) h = absurd cc
  ended-is_ended (leaving s) h = absurd cc
  ended-is_ended closing h = absurd cc

  phase-readers :
      (s : Shared Source)
      → IsInPhase s
      → (readers s ≤ 1) × ((readers s ≡ 0) ⊎ (s.ring.closed ≡ false))
  phase-readers s h =
      let e : armed s.life.source ≡ (if is_idle s.pump then 1 else 0) =
        armed-is_some s.life.source ∙ ap (λ b. if b then 1 else 0) h.waits in
      rw (e, h.shuts) (slots s.pump)

  -- There is never a second reader of the source; a closed ring means that there is none.
  pub one_reader :
      (source : Source) (lifetime : Lifetime) (w : World Source)
      → Steps (begin source lifetime) w
      → (readers w.shared ≤ 1) × ((readers w.shared ≡ 0) ⊎ (w.shared.ring.closed ≡ false))
  one_reader source lifetime w s = phase-readers w.shared (Steps-IsSound source lifetime w s).phase

  refused-closed : (s : Shared Source) → (open_cursor s).0 ≡ none → s.ring.closed ≡ true
  unfolding open_cursor
  refused-closed s refused = elim (Option-cases s.life.source) [
    | inl gone ↦ elim (Bool-cases s.ring.closed) [
      | inl shut ↦ shut
      | inr runs ↦ absurd (cc (rw (gone, runs) at refused))
    ]
    | inr (source, held) ↦ absurd (cc (rw (held) at refused))
  ]

  ended_refuses :
      (s : Shared Source)
      → is_some s.life.source ≡ false
      → s.ring.closed ≡ true
      → (open_cursor s).0 ≡ none
  unfolding open_cursor
  ended_refuses s gone shut = elim (Option-cases s.life.source) [
    | inl none_left ↦ rw (none_left, shut) refl
    | inr (source, held) ↦ absurd (cc (rw (held) at gone))
  ]

  -- A consumer is refused exactly when the pump has ended, however many others still drain.
  pub refused_iff_ended :
      (source : Source) (lifetime : Lifetime) (w : World Source)
      → Steps (begin source lifetime) w
      → ((open_cursor w.shared).0 ≡ none) ↔ (w.shared.pump ≡ ended)
  unfolding open_cursor
  refused_iff_ended source lifetime w s =
      let h = (Steps-IsSound source lifetime w s).phase in
      (
        λ refused. ended-is_ended w.shared.pump (sym h.shuts ∙ refused-closed w.shared refused),
        λ over. ended_refuses w.shared (h.waits ∙ ap is_idle over) (h.shuts ∙ ap is_ended over),
      )
