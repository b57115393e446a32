-- ===== src/Cut/Keyed.antt =====
-- The peer that a session's record answers for.
use tightbeam.Base.{
  ℕ, ◌≡◌, refl, ap, subst, ◌∙◌, Bool, false, ◌||◌, ◌&&◌, ◌+◌, ltb, length, Bool-cases, Option, none,
  some, List, [], ◌∷◌, any, if◌then◌else◌, inl, inr, true,
}
use tightbeam.Base.Results.{ok, step_ok, ok-injective}
use tightbeam.Cut.{
  sign_twin, peer_keys, keep, map_unreadable, of_stream, fresh_ids, listed, max_session_chain_ids,
  Cap, AdmittedChains, all_ids, record_all, record_proven,
}
use tightbeam.Cut.Record.{or_comm}
use tightbeam.Cut.Streams.{
  Stream, on_caps, on_proof, admit, admit_all, some_proof, some_keyed, peer_of, AllOf, twin_revoked,
}

pub record Keyed (peer : ℕ) (ss : List Stream) (chains : AdmittedChains) : Type 0 where
  pub key : chains.peer ≡ (if some_keyed ss then some peer else none)
  pub proof : chains.proven ≡ some_proof ss

abbrev keep_peer : ℕ → List Cap → Option ℕ → Option ℕ
keep_peer peer [] held = held
keep_peer peer (cap ∷ caps) held = some peer

keep-peer :
    (peer : ℕ) (ruled : List Cap) (stream : Option ℕ) (chains : AdmittedChains)
    → ((keep peer ruled stream chains).peer ≡ keep_peer peer ruled chains.peer)
      × ((keep peer ruled stream chains).proven ≡ chains.proven)
keep-peer peer [] stream chains = (refl, refl)
keep-peer peer (cap ∷ caps) stream chains = (refl, refl)

kept-peer :
    (peer : ℕ) (ruled : List Cap) (chains after : AdmittedChains)
    → record_all peer ruled chains ≡ ok after
    → (after.peer ≡ keep_peer peer ruled chains.peer) × (after.proven ≡ chains.proven)
unfolding record_all
kept-peer peer ruled chains after e =
    step_ok (map_unreadable (of_stream ruled)) _ e (λ stream e1 e2.
      elim (Bool-cases (
        ltb max_session_chain_ids
          (length chains.ids + length (fresh_ids chains.ids (all_ids ruled))))) [
            | inl long ↦ absurd (cc (rw (long) at e2))
            | inr fits ↦
                subst
                  (λ c. (c.peer ≡ keep_peer peer ruled chains.peer) × (c.proven ≡ chains.proven))
                  (ok-injective (rw (fits) at e2)) (keep-peer peer ruled stream chains)
          ])

admit-Keyed :
    (peer : ℕ) (s : Stream) (ss : List Stream) (chains after : AdmittedChains)
    → peer_of s ≡ peer
    → admit s chains ≡ ok after
    → Keyed peer ss chains
    → Keyed peer (s ∷ ss) after
unfolding admit record_proven
admit-Keyed peer (on_caps own []) ss chains after same e k =
    let (key, proof) = kept-peer own [] chains after e in
    record { key = key ∙ k.key; proof = proof ∙ k.proof }
admit-Keyed peer (on_caps own (cap ∷ caps)) ss chains after same e k =
    let (key, proof) = kept-peer own (cap ∷ caps) chains after e in
    record { key = key ∙ ap some same; proof = proof ∙ k.proof }
admit-Keyed peer (on_proof own) ss chains after same e k =
    subst (Keyed peer (on_proof own ∷ ss)) (ok-injective e)
      (record { key = ap some same; proof = refl })

pub admit_all-Keyed :
    (peer : ℕ) (ss : List Stream) (chains : AdmittedChains)
    → AllOf peer ss
    → admit_all ss ≡ ok chains
    → Keyed peer ss chains
unfolding admit_all
admit_all-Keyed peer [] chains own e =
    subst (Keyed peer []) (ok-injective e) (record { key = refl; proof = refl })
admit_all-Keyed peer (s ∷ ss) chains (same, own) e = step_ok (admit_all ss) _ e (λ before e' e''.
    admit-Keyed peer s ss before chains same e'' (admit_all-Keyed peer ss before own e'))

abbrev pub keys_revoked : (ℕ → Bool) → (ℕ → Option ℕ) → ℕ → Bool → Bool → Bool
keys_revoked p try_new peer keyed proof =
    keyed && (p peer || (proof && twin_revoked p (sign_twin try_new peer)))

pub keyed_or :
    (keyed proof own twin : Bool)
    → (proof ≡ true → keyed ≡ true)
    → keyed && (own || (proof && twin)) ≡ (keyed && own) || (proof && twin)
keyed_or true proof own twin h = refl
keyed_or false true own twin h = absurd (cc (h refl))
keyed_or false false own twin h = refl

pub proof_keyed : (ss : List Stream) → some_proof ss ≡ true → some_keyed ss ≡ true
proof_keyed [] h = absurd cc
proof_keyed (on_caps peer [] ∷ ss) h = proof_keyed ss h
proof_keyed (on_caps peer (cap ∷ caps) ∷ ss) h = refl
proof_keyed (on_proof peer ∷ ss) h = refl

any-listed : (p : ℕ → Bool) (twin : Option ℕ) → any p (listed twin) ≡ twin_revoked p twin
any-listed p none = refl
any-listed p (some twin) = or_comm (p twin) false

pub any-peer_keys :
    (peer : ℕ) (ss : List Stream) (chains : AdmittedChains) (p : ℕ → Bool) (try_new : ℕ → Option ℕ)
    → Keyed peer ss chains
    → any p (peer_keys try_new chains) ≡ keys_revoked p try_new peer (some_keyed ss) (some_proof ss)
unfolding peer_keys
any-peer_keys peer ss chains p try_new k = elim (Bool-cases (some_keyed ss)) [
  | inr unkeyed ↦ rw (k.key, unkeyed, peer_keys) refl
  | inl keyed ↦ elim (Bool-cases (some_proof ss)) [
    | inl proven ↦
        rw (k.key, keyed, peer_keys, k.proof, proven, any-listed p (sign_twin try_new peer)) refl
    | inr unproven ↦ rw (k.key, keyed, peer_keys, k.proof, unproven) refl
  ]
]
