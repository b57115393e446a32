-- ===== src/Cut/Record.antt =====
-- What the record of a session keeps of the streams that it admitted.
use tightbeam.Base.{
  ℕ, ◌+◌, ◌≤◌, ◌≡◌, refl, sym, ap, subst, ◌∙◌, Bool, true, false, ◌||◌, Option, none, some, List,
  [], ◌∷◌, length, any, ltb, ◌==◌, arith, Bool-cases, inl, inr, ==→eq, ltb→le,
}
use tightbeam.Base.Results.{Result, ok, step_ok, ok-injective}
use tightbeam.Cut.{
  max_session_chain_ids, Cap, Lease, unruled, unbounded, until, sooner, earliest_from, expiries,
  of_stream, extend, lease_lapsed, AdmittedChains, has, insert, insert_all, all_ids, all_roots,
  fresh_ids, keep, record_all, lapsed, map_unreadable,
}

or_assoc : (a b c : Bool) → (a || b) || c ≡ a || (b || c)
or_assoc true b c = refl
or_assoc false b c = refl

pub or_comm : (a b : Bool) → a || b ≡ b || a
or_comm true true = refl
or_comm true false = refl
or_comm false true = refl
or_comm false false = refl

absorbs : (a b : Bool) → (a ≡ true → b ≡ true) → b ≡ a || b
absorbs true b h = h refl
absorbs false b h = refl

module _ (p : ℕ → Bool) where
  any-has : (x : ℕ) (xs : List ℕ) → has xs x ≡ true → p x ≡ true → any p xs ≡ true
  any-has x [] h e = absurd cc
  any-has x (y ∷ ys) h e = elim (Bool-cases (y == x)) [
    | inl same ↦ let q : y ≡ x = ==→eq y x same in rw (q, e) refl
    | inr other ↦ rw (any-has x ys (rw (other) at h) e, or_comm (p y) true) refl
  ]

  any-insert : (x : ℕ) (xs : List ℕ) → any p (insert x xs) ≡ p x || any p xs
  any-insert x xs = elim (Bool-cases (has xs x)) [
    | inl there ↦ rw (there) (absorbs (p x) (any p xs) (any-has x xs there))
    | inr new ↦ rw (new) refl
  ]

  any-insert_all : (ys xs : List ℕ) → any p (insert_all ys xs) ≡ any p ys || any p xs
  any-insert_all [] xs = refl
  any-insert_all (y ∷ ys) xs =
      any-insert y (insert_all ys xs)
      ∙ ap (λ b. p y || b) (any-insert_all ys xs)
      ∙ sym (or_assoc (p y) (any p ys) (any p xs))

  any-fresh_ids : (ids xs : List ℕ) → any p (fresh_ids ids xs) || any p ids ≡ any p xs || any p ids
  any-fresh_ids ids [] = refl
  any-fresh_ids ids (x ∷ xs) = elim (Bool-cases (has ids x)) [
    | inl there ↦ rw (there) (
        any-fresh_ids ids xs
        ∙ absorbs (p x) (any p xs || any p ids)
            (λ e. rw (any-has x ids there e) (or_comm (any p xs) true))
        ∙ sym (or_assoc (p x) (any p xs) (any p ids)))
    | inr new ↦
        rw
          (
            new,
            any-insert x (fresh_ids ids xs),
            or_assoc (p x) (any p (fresh_ids ids xs)) (any p ids),
            any-fresh_ids ids xs,
          )
          (sym (or_assoc (p x) (any p xs) (any p ids)))
  ]

length-insert : (x : ℕ) (xs : List ℕ) → length (insert x xs) ≤ 1 + length xs
length-insert x xs = elim (Bool-cases (has xs x)) [
  | inl there ↦ rw (there) (omega arith)
  | inr new ↦ rw (new) (omega arith)
]

length-insert_all : (ys xs : List ℕ) → length (insert_all ys xs) ≤ length ys + length xs
length-insert_all [] xs = omega arith
length-insert_all (y ∷ ys) xs =
    omega (arith, length-insert y (insert_all ys xs), length-insert_all ys xs)

-- Whether an expiry has passed, and whether a capability's has.
abbrev pub passed : ℕ → Option ℕ → Bool
passed now none = false
passed now (some t) = ltb t now

abbrev pub known_expiry : Result (Unit {0}) (Option ℕ) → Option ℕ
known_expiry (Result.ok t) = t
known_expiry (Result.err e) = none

abbrev pub run_out : ℕ → List Cap → Bool
run_out now [] = false
run_out now (cap ∷ caps) = passed now (known_expiry cap.valid_until) || run_out now caps

passed-sooner :
    (now : ℕ) (held t : Option ℕ) → passed now (sooner held t) ≡ passed now held || passed now t
passed-sooner now none t = refl
passed-sooner now (some a) none = or_comm false (ltb a now)
passed-sooner now (some a) (some b) = ground arith

lease_lapsed-extend :
    (now : ℕ) (lease : Lease) (t : Option ℕ)
    → lease_lapsed now (extend lease t) ≡ lease_lapsed now lease || passed now t
unfolding lease_lapsed extend
lease_lapsed-extend now unruled none = refl
lease_lapsed-extend now unbounded none = refl
lease_lapsed-extend now unruled (some t) = refl
lease_lapsed-extend now unbounded (some t) = refl
lease_lapsed-extend now (until a) (some t) = ground arith
lease_lapsed-extend now (until a) none = or_comm false (ltb a now)

earliest_from-passed :
    (now : ℕ) (held s : Option ℕ) (ruled : List Cap)
    → earliest_from held (expiries ruled) ≡ ok s
    → passed now s ≡ passed now held || run_out now ruled
unfolding earliest_from
earliest_from-passed now held s [] h =
    ap (passed now) (sym (ok-injective h)) ∙ or_comm false (passed now held)
earliest_from-passed now held s (cap ∷ caps) h = step_ok cap.valid_until _ h (λ t e h'.
    earliest_from-passed now (sooner held t) s caps h'
    ∙ rw (passed-sooner now held t, e)
        (or_assoc (passed now held) (passed now t) (run_out now caps)))

of_stream-passed :
    (now : ℕ) (s : Option ℕ) (ruled : List Cap)
    → of_stream ruled ≡ ok s
    → passed now s ≡ run_out now ruled
unfolding of_stream
of_stream-passed now s ruled h = earliest_from-passed now none s ruled h

-- What keeping a stream adds, whatever is asked of an id or of a root.
pub record Adds (ruled : List Cap) (now : ℕ) (p : ℕ → Bool) (chains after : AdmittedChains)
    : Type 0 where
  pub ids : any p after.ids ≡ any p (all_ids ruled) || any p chains.ids
  pub roots : any p after.roots ≡ any p (all_roots ruled) || any p chains.roots
  pub lapses : lapsed after now ≡ run_out now ruled || lapsed chains now
  pub proven : after.proven ≡ chains.proven
  pub small : length after.ids ≤ max_session_chain_ids

keep-Adds :
    (peer : ℕ) (ruled : List Cap) (stream : Option ℕ) (chains : AdmittedChains) (now : ℕ)
    (p : ℕ → Bool)
    → of_stream ruled ≡ ok stream
    → length chains.ids + length (fresh_ids chains.ids (all_ids ruled)) ≤ max_session_chain_ids
    → Adds ruled now p chains (keep peer ruled stream chains)
unfolding lapsed
keep-Adds peer [] stream chains now p e fits = record {
  ids = refl;
  roots = refl;
  lapses = refl;
  proven = refl;
  small = omega arith;
}
keep-Adds peer (cap ∷ caps) stream chains now p e fits = record {
  ids =
      any-insert_all p (fresh_ids chains.ids (all_ids (cap ∷ caps))) chains.ids
      ∙ any-fresh_ids p chains.ids (all_ids (cap ∷ caps));
  roots = any-insert_all p (all_roots (cap ∷ caps)) chains.roots;
  lapses =
      lease_lapsed-extend now chains.lease stream
      ∙ or_comm (lease_lapsed now chains.lease) (passed now stream)
      ∙ ap (λ b. b || lease_lapsed now chains.lease) (of_stream-passed now stream (cap ∷ caps) e);
  proven = refl;
  small = omega (arith, length-insert_all (fresh_ids chains.ids (all_ids (cap ∷ caps))) chains.ids);
}

map_unreadable-ok :
    {A : Type 0} (m : Result (Unit {0}) A) (a : A) → map_unreadable m ≡ ok a → m ≡ ok a
map_unreadable-ok (Result.ok b) a h = ap ok (ok-injective h)
map_unreadable-ok (Result.err e) a h = absurd cc

-- A stream that is recorded adds all its ids and roots to the session's record, makes the session lapse
-- whenever one of its own capabilities has run out and not otherwise, and leaves the record within its
-- ceiling.
pub record_all-Adds :
    (peer : ℕ) (ruled : List Cap) (chains after : AdmittedChains) (now : ℕ) (p : ℕ → Bool)
    → record_all peer ruled chains ≡ ok after
    → Adds ruled now p chains after
unfolding record_all
record_all-Adds peer ruled chains after now p h =
    step_ok (map_unreadable (of_stream ruled)) _ h (λ stream e h'.
      elim (Bool-cases (
        ltb max_session_chain_ids
          (length chains.ids + length (fresh_ids chains.ids (all_ids ruled))))) [
            | inl long ↦ absurd (cc (rw (long) at h'))
            | inr fits ↦ subst (Adds ruled now p chains) (ok-injective (rw (fits) at h')) (
                keep-Adds peer ruled stream chains now p
                  (map_unreadable-ok (of_stream ruled) stream e)
                  (ltb→le max_session_chain_ids _ fits))
          ])
