-- ===== src/Cut/Ending.antt =====
-- When a session ends, by what its streams were admitted on.
use tightbeam.Base.{
  ℕ, ◌≡◌, refl, ap, subst, ◌∙◌, Bool, false, ◌||◌, ◌&&◌, Option, none, some, List, [], ◌∷◌, any,
  if◌then◌else◌, ◌≢◌, ◌⊎◌, inl, inr, true,
}
use tightbeam.Base.Results.{ok, step_ok, ok-injective}
use tightbeam.Cut.{
  sign_twin, peer_keys, Cut, untrusted, AdmittedChains, all_ids, record_proven, denylist,
  session_cut, recalled, peer_revoked, expired,
}
use tightbeam.Cut.Record.{or_comm, Adds, record_all-Adds}
use tightbeam.Cut.Streams.{
  Stream, on_caps, on_proof, admit, admit_all, admit_more, some_id, some_root, some_proof,
  some_keyed, AllOf, twin_revoked, some_run_out, admit_all-Holds,
}
use tightbeam.Cut.Keyed.{any-peer_keys, admit_all-Keyed, keyed_or, proof_keyed}

never : (xs : List ℕ) → any (λ x. false) xs ≡ false
never [] = refl
never (x ∷ xs) = never xs

-- A session of one peer under a denylist is cut exactly when it must be: recalled as soon as any id or
-- root of any capability of any of its streams is revoked, else when the peer's key is revoked and some
-- stream was admitted on a capability or on a proven-only route, or its sign twin is and some stream was
-- admitted on a proven-only route, else once any one of those capabilities has run out.
pub session_cut-denylist :
    (ss : List Stream) (chains : AdmittedChains) (peer now : ℕ) (is_revoked : ℕ → Bool)
    (is_revoked_key : ℕ → Bool) (try_new : ℕ → Option ℕ)
    → AllOf peer ss
    → admit_all ss ≡ ok chains
    → session_cut (denylist is_revoked is_revoked_key) try_new chains now ≡ (
        if some_id is_revoked ss || some_root is_revoked_key ss
        then some recalled
        else if (some_keyed ss && is_revoked_key peer)
            || (some_proof ss && twin_revoked is_revoked_key (sign_twin try_new peer))
        then some peer_revoked
        else if some_run_out now ss
        then some expired
        else none)
unfolding session_cut denylist
session_cut-denylist ss chains peer now is_revoked is_revoked_key try_new own e =
    rw
      (
        never chains.anchors,
        (admit_all-Holds ss now is_revoked chains e).ids,
        (admit_all-Holds ss now is_revoked_key chains e).roots,
        (admit_all-Holds ss now is_revoked chains e).lapses,
        any-peer_keys peer ss chains is_revoked_key try_new (admit_all-Keyed peer ss chains own e),
        keyed_or (some_keyed ss) (some_proof ss) (is_revoked_key peer)
            (twin_revoked is_revoked_key (sign_twin try_new peer)) (proof_keyed ss),
      )
      refl

-- A record that holds a revoked id holds it whatever streams follow.
admit-recalled :
    (s : Stream) (p : ℕ → Bool) (chains after : AdmittedChains)
    → admit s chains ≡ ok after
    → any p chains.ids ≡ true
    → any p after.ids ≡ true
unfolding admit record_proven
admit-recalled (on_caps peer ruled) p chains after e h =
    let a : Adds ruled 0 p chains after = record_all-Adds peer ruled chains after 0 p e in
    a.ids ∙ rw (h) (or_comm (any p (all_ids ruled)) true)
admit-recalled (on_proof peer) p chains after e h =
    subst (λ c. any p c.ids ≡ true) (ok-injective e) h

pub admit_more-recalled :
    (ss : List Stream) (chains after : AdmittedChains) (now : ℕ) (is_revoked : ℕ → Bool)
    (is_revoked_key : ℕ → Bool) (try_new : ℕ → Option ℕ)
    → admit_more ss chains ≡ ok after
    → any is_revoked chains.ids ≡ true
    → session_cut (denylist is_revoked is_revoked_key) try_new after now ≡ some recalled
unfolding admit_more session_cut denylist
admit_more-recalled [] chains after now is_revoked is_revoked_key try_new e h =
    rw (← ap (λ c. c.ids) (ok-injective e), h) refl
admit_more-recalled (s ∷ ss) chains after now is_revoked is_revoked_key try_new e h =
    step_ok (admit s chains) _ e (λ next e' e''.
      admit_more-recalled ss next after now is_revoked is_revoked_key try_new e''
        (admit-recalled s is_revoked chains next e' h))

if-some : (b : Bool) (a : Cut) (c : Option Cut) → c ≢ none → (if b then some a else c) ≢ none
if-some true a c h = λ e. cc
if-some false a c h = h

either_key :
    (p : ℕ → Bool) (peer twin key : ℕ)
    → (key ≡ peer) ⊎ (key ≡ twin)
    → p key ≡ true
    → p peer || (p twin || false) ≡ true
either_key p peer twin key (inl e) r = rw (← e, r) refl
either_key p peer twin key (inr e) r = rw (← e, r) (or_comm (p peer) true)

revoked_twin-chains :
    (chains : AdmittedChains) (now peer key twin : ℕ) (is_revoked : ℕ → Bool)
    (is_revoked_key : ℕ → Bool) (try_new : ℕ → Option ℕ)
    → sign_twin try_new peer ≡ some twin
    → (key ≡ peer) ⊎ (key ≡ twin)
    → is_revoked_key key ≡ true
    → session_cut (denylist is_revoked is_revoked_key) try_new (record_proven peer chains) now
      ≢ none
unfolding session_cut denylist record_proven peer_keys
revoked_twin-chains chains now peer key twin is_revoked is_revoked_key try_new t which r =
    let found : is_revoked_key peer || (is_revoked_key twin || false) ≡ true =
      either_key is_revoked_key peer twin key which r in
    if-some (any is_revoked chains.ids || any is_revoked_key chains.roots) recalled _
      (if-some (any (λ anchor. false) chains.anchors) untrusted _ (rw (t, found) (λ e. cc)))

-- A session whose latest stream was witnessed for a proven key ends once that key or its sign twin is
-- revoked, whatever its earlier streams were admitted on.
pub session_cut-twin :
    (ss : List Stream) (chains : AdmittedChains) (now peer key twin : ℕ) (is_revoked : ℕ → Bool)
    (is_revoked_key : ℕ → Bool) (try_new : ℕ → Option ℕ)
    → admit_all (on_proof peer ∷ ss) ≡ ok chains
    → sign_twin try_new peer ≡ some twin
    → (key ≡ peer) ⊎ (key ≡ twin)
    → is_revoked_key key ≡ true
    → session_cut (denylist is_revoked is_revoked_key) try_new chains now ≢ none
unfolding admit_all admit
session_cut-twin ss chains now peer key twin is_revoked is_revoked_key try_new e t which r =
    step_ok (admit_all ss) _ e (λ before e' e''.
      subst (λ c. session_cut (denylist is_revoked is_revoked_key) try_new c now ≢ none)
        (ok-injective e'')
        (revoked_twin-chains before now peer key twin is_revoked is_revoked_key try_new t which r))
