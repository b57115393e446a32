-- ===== src/Contract/Delegation.antt =====
-- What becomes of a proof that is handed inward.
use tightbeam.Base.{◌≡◌, refl, sym, ◌∙◌, true, Bool-cases, inl, inr}
use tightbeam.Base.Results.{ok, err, ok-injective}
use tightbeam.Policy.{
  Origin, rooted, opened, proven, PublicUse, never, opt_in, proven_only, accepts, compatible,
}
use tightbeam.Protocol.Frames.{Refusal, not_admitted}
use tightbeam.Gate.{Gates}
use tightbeam.Contract.{is_rooted, Served, mint, into_rooted, delegate}

carried :
    (outer inner : PublicUse) (origin : Origin)
    → compatible outer inner ≡ true
    → accepts outer origin ≡ true
    → accepts inner origin ≡ true
unfolding compatible accepts
carried never never origin c a = a
carried never opt_in rooted c a = refl
carried never opt_in opened c a = absurd cc
carried never opt_in proven c a = absurd cc
carried never proven_only origin c a = absurd cc
carried opt_in opt_in origin c a = a
carried opt_in never origin c a = absurd cc
carried opt_in proven_only origin c a = absurd cc
carried proven_only proven_only origin c a = a
carried proven_only never origin c a = absurd cc
carried proven_only opt_in origin c a = absurd cc

never_rooted : (origin : Origin) → accepts never origin ≡ true → is_rooted origin ≡ true
unfolding accepts
never_rooted rooted h = refl
never_rooted opened h = absurd cc
never_rooted proven h = absurd cc

-- A mint has one refusal.
pub mint_err :
    (gates : Gates) (D : Type 0) (exposure : PublicUse) (witness : gates.Admitted)
    (refusal : Refusal D)
    → mint gates D exposure witness ≡ err refusal
    → refusal ≡ not_admitted
unfolding mint
mint_err gates D exposure witness refusal h =
    elim (Bool-cases (accepts exposure (gates.origin witness))) [
      | inl here ↦ absurd (cc (rw (here) at h))
      | inr there ↦ cc (rw (there) at h)
    ]

module _ (gates : Gates) (D Failure : Type 0) where
  -- A proof that a handler was prepared with, and the proofs that it is handed inward as.
  pub data Handed (witness : gates.Admitted)
      : (exposure : PublicUse) → Served gates exposure → Type 0 where
    prepared :
        {exposure : PublicUse} {served : Served gates exposure}
        → mint gates D exposure witness ≡ ok served
        → Handed witness exposure served
    inward :
        {outer inner : PublicUse} {served : Served gates outer} {given : Served gates inner}
        (bound : compatible outer inner ≡ true)
        → Handed witness outer served
        → delegate gates D Failure served bound ≡ ok given
        → Handed witness inner given

  -- A proof over its witness, and what it can still do.
  pub record Backed (witness : gates.Admitted) (exposure : PublicUse)
      (served : Served gates exposure) : Type 0 where
    same : served ≡ record { admitted = witness }
    accepted : accepts exposure (gates.origin witness) ≡ true
    onward :
        (inner : PublicUse) (bound : compatible exposure inner ≡ true)
        → delegate gates D Failure served bound ≡ ok (record { admitted = witness })
    narrows :
        exposure ≡ never → into_rooted gates D Failure served ≡ ok (record { admitted = witness })

  accepted-Backed :
      (exposure : PublicUse) (witness : gates.Admitted) (served : Served gates exposure)
      → accepts exposure (gates.origin witness) ≡ true
      → served ≡ record { admitted = witness }
      → Backed witness exposure served
  unfolding mint delegate into_rooted
  accepted-Backed exposure witness served ok_origin same = record {
    same = same;
    accepted = ok_origin;
    onward = λ inner bound.
        rw (same, carried exposure inner (gates.origin witness) bound ok_origin) refl;
    narrows = λ e. rw (same, never_rooted (gates.origin witness) (rw (e) at ok_origin)) refl;
  }

  minted-Backed :
      (exposure : PublicUse) (witness : gates.Admitted) (served : Served gates exposure)
      → mint gates D exposure witness ≡ ok served
      → Backed witness exposure served
  unfolding mint
  minted-Backed exposure witness served h =
      elim (Bool-cases (accepts exposure (gates.origin witness))) [
        | inl here ↦
            accepted-Backed exposure witness served here (sym (ok-injective (rw (here) at h)))
        | inr there ↦ absurd (cc (rw (there) at h))
      ]

  -- A proof launders no witness. However often it is handed inward, it carries the witness that the
  -- first handler was prepared with, to a handler that accepts the origin of that witness; a further
  -- conversion that the bound allows never fails, and a handler that may never face a stranger
  -- always narrows its proof to a rooted one.
  pub Handed-Backed :
      {witness : gates.Admitted} {exposure : PublicUse} {served : Served gates exposure}
      → Handed witness exposure served
      → Backed witness exposure served
  Handed-Backed (prepared h) = minted-Backed _ _ _ h
  Handed-Backed {witness} (inward {outer} {inner} {served} {given} bound before h) =
      let backed = Handed-Backed before in
      accepted-Backed inner witness given
        (carried outer inner (gates.origin witness) bound backed.accepted)
        (ok-injective (sym h ∙ backed.onward inner bound))
