-- ===== src/Cut/Streams.antt =====
-- The streams of a session, and what its record keeps of them all.
use tightbeam.Base.{
  ℕ, ◌≡◌, refl, ap, subst, ◌∙◌, Bool, false, ◌||◌, Option, none, some, List, [], ◌∷◌, any, true,
}
use tightbeam.Base.Results.{Result, ok, ◌>>=◌, step_ok, ok-injective}
use tightbeam.Cut.{
  Cap, Unrecorded, AdmittedChains, all_ids, all_roots, record_all, record_proven, lapsed,
  nothing_admitted,
}
use tightbeam.Cut.Record.{Adds, record_all-Adds, run_out}

-- A stream of a session: admitted on capabilities, or on a proven-only route.
pub data Stream : Type 0 where
  on_caps : ℕ → List Cap → Stream
  on_proof : ℕ → Stream

unfoldable pub admit : Stream → AdmittedChains → Result Unrecorded AdmittedChains
admit (on_caps peer ruled) chains = record_all peer ruled chains
admit (on_proof peer) chains = ok (record_proven peer chains)

-- The session's streams, newest first.
unfoldable pub admit_all : List Stream → Result Unrecorded AdmittedChains
unfolding admit
admit_all [] = ok nothing_admitted
admit_all (s ∷ ss) = admit_all ss >>= λ chains. admit s chains

-- The streams that follow on a record, oldest first.
unfoldable pub admit_more : List Stream → AdmittedChains → Result Unrecorded AdmittedChains
unfolding admit
admit_more [] chains = ok chains
admit_more (s ∷ ss) chains = admit s chains >>= λ after. admit_more ss after

abbrev pub caps_of : Stream → List Cap
caps_of (on_caps peer ruled) = ruled
caps_of (on_proof peer) = []

-- Some capability of the session answers yes.
abbrev pub some_id : (ℕ → Bool) → List Stream → Bool
some_id p [] = false
some_id p (s ∷ ss) = any p (all_ids (caps_of s)) || some_id p ss

abbrev pub some_root : (ℕ → Bool) → List Stream → Bool
some_root p [] = false
some_root p (s ∷ ss) = any p (all_roots (caps_of s)) || some_root p ss

-- Some stream was admitted on a proven-only route.
abbrev pub some_proof : List Stream → Bool
some_proof [] = false
some_proof (on_caps peer ruled ∷ ss) = some_proof ss
some_proof (on_proof peer ∷ ss) = true

-- Some stream was admitted for the key of its peer: by a capability or by proof.
abbrev pub some_keyed : List Stream → Bool
some_keyed [] = false
some_keyed (on_caps peer [] ∷ ss) = some_keyed ss
some_keyed (on_caps peer (cap ∷ caps) ∷ ss) = true
some_keyed (on_proof peer ∷ ss) = true

abbrev pub peer_of : Stream → ℕ
peer_of (on_caps peer ruled) = peer
peer_of (on_proof peer) = peer

abbrev pub AllOf : ℕ → List Stream → Type 0
AllOf peer [] = Unit {0}
AllOf peer (s ∷ ss) = (peer_of s ≡ peer) × AllOf peer ss

abbrev pub twin_revoked : (ℕ → Bool) → Option ℕ → Bool
twin_revoked p none = false
twin_revoked p (some twin) = p twin

abbrev pub some_run_out : ℕ → List Stream → Bool
some_run_out now [] = false
some_run_out now (s ∷ ss) = run_out now (caps_of s) || some_run_out now ss

pub record Holds (ss : List Stream) (now : ℕ) (p : ℕ → Bool) (chains : AdmittedChains)
    : Type 0 where
  pub ids : any p chains.ids ≡ some_id p ss
  pub roots : any p chains.roots ≡ some_root p ss
  pub lapses : lapsed chains now ≡ some_run_out now ss

admit-Holds :
    (s : Stream) (ss : List Stream) (now : ℕ) (p : ℕ → Bool) (chains after : AdmittedChains)
    → admit s chains ≡ ok after
    → Holds ss now p chains
    → Holds (s ∷ ss) now p after
unfolding admit lapsed record_proven
admit-Holds (on_caps peer ruled) ss now p chains after e h =
    let a : Adds ruled now p chains after = record_all-Adds peer ruled chains after now p e in
    record {
      ids = a.ids ∙ ap (λ b. any p (all_ids ruled) || b) h.ids;
      roots = a.roots ∙ ap (λ b. any p (all_roots ruled) || b) h.roots;
      lapses = a.lapses ∙ ap (λ b. run_out now ruled || b) h.lapses;
    }
admit-Holds (on_proof peer) ss now p chains after e h =
    subst (Holds (on_proof peer ∷ ss) now p) (ok-injective e)
      (record { ids = h.ids; roots = h.roots; lapses = h.lapses })

pub admit_all-Holds :
    (ss : List Stream) (now : ℕ) (p : ℕ → Bool) (chains : AdmittedChains)
    → admit_all ss ≡ ok chains
    → Holds ss now p chains
unfolding admit_all lapsed
admit_all-Holds [] now p chains e =
    subst (Holds [] now p) (ok-injective e) (record { ids = refl; roots = refl; lapses = refl })
admit_all-Holds (s ∷ ss) now p chains e =
    step_ok (admit_all ss) _ e (λ before e' e''.
      admit-Holds s ss now p before chains e'' (admit_all-Holds ss now p before e'))
