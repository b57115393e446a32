-- ===== src/Builtins/Reached.antt =====
-- The forward of src/builtins.rs, from its entry to the endpoint that it dials.
use tightbeam.Base.{
  ℕ, ◌≡◌, ◌≢◌, refl, sym, ap, ◌∙◌, Bool, true, Option, none, some, List, ◌∷◌, ◌++◌, same_bytes,
  Bool-cases, inl, inr,
}
use tightbeam.Base.Bytes.{Text}
use tightbeam.Base.Results.{ok}
use tightbeam.Router.Overlays.{same_bytes-eq}
use tightbeam.Grammar.{
  forward, split_once, tcp_word, unix_word, validate_forward, scheme_endpoint, parse_target,
}
use tightbeam.Grammar.Words.{split_once-append}
use tightbeam.Grammar.Endpoint.{validate_forward_iff}
use tightbeam.Grammar.Spelling.{IsPlain}
use tightbeam.Grammar.Exact.{parse_target_iff}
use tightbeam.Pump.{
  HalfTurn, Side, Splice, splice, splice_run, outcome, Outcome, pending, succeeded, failed,
}
use tightbeam.Pump.Delivered.{copy_of, splice_run-delivers}
use tightbeam.Builtins.{
  Endpoint, tcp, unix, endpoint, refused, served, spliced, over_local, dialed, serve_forward,
  unreached, not_an_endpoint,
}

abbrev pub spelled : Endpoint → Text
spelled (tcp host_port) = tcp_word ++ b':' ∷ host_port
spelled (unix path) = unix_word ++ b':' ∷ path

endpoint-spelled :
    (addr : Text) (o : Option (Text × Text))
    → split_once b':' addr ≡ o
    → scheme_endpoint o ≡ true
    → (e : Endpoint) × (endpoint o ≡ some e) × (spelled e ≡ addr)
endpoint-spelled addr none is h = absurd cc
endpoint-spelled addr (some (scheme, rest)) is h = elim (Bool-cases (same_bytes scheme tcp_word)) [
  | inl here ↦ (
    tcp rest,
    rw (here) refl,
    sym (
        split_once-append b':' addr scheme rest is
        ∙ ap (λ s. s ++ b':' ∷ rest) (same_bytes-eq scheme tcp_word here)),
  )
  | inr other ↦ elim (Bool-cases (same_bytes scheme unix_word)) [
    | inl local ↦ (
      unix rest,
      rw (other, local) refl,
      sym (
          split_once-append b':' addr scheme rest is
          ∙ ap (λ s. s ++ b':' ∷ rest) (same_bytes-eq scheme unix_word local)),
    )
    | inr neither ↦ absurd (cc (rw (other, neither) at h))
  ]
]

spliced-served : (o : Outcome) (s : Splice) → spliced o s ≡ served → o ≡ succeeded
spliced-served pending s h = absurd cc
spliced-served succeeded s h = refl
spliced-served failed s h = absurd cc

over_local-endpoint :
    (o : Option (List ℕ)) (peer : List ℕ) (ts : List (Side × HalfTurn))
    → over_local o peer ts ≢ refused not_an_endpoint
over_local-endpoint none peer ts h = absurd (cc h)
over_local-endpoint (some local) peer ts h = by_outcome (outcome s) h
  where
    s : Splice
    s = splice_run ts (splice local peer)

    by_outcome : (o : Outcome) → spliced o s ≢ refused not_an_endpoint
    by_outcome pending h' = absurd (cc h')
    by_outcome succeeded h' = absurd (cc h')
    by_outcome failed h' = absurd (cc h')

legal_forward :
    (terminal : Bool) (entry addr : Text)
    → parse_target terminal entry ≡ ok (forward addr)
    → (entry ≡ addr) × (validate_forward addr ≡ true) × IsPlain addr
legal_forward terminal entry addr h =
    let (same, legal) = (parse_target_iff terminal entry (forward addr)).0 h in
    (same, (validate_forward_iff addr).1 legal.0, legal.1)

-- What the grammar admits, the dial reaches. The entry of a forward spells one local endpoint, and a stream
-- served to it dials that endpoint and no other: it never fails for its address, it fails when the
-- endpoint cannot be reached, and when it has served, each end has all that the other sent.
pub serve_forward-reaches :
    (terminal : Bool) (entry addr : Text)
    → parse_target terminal entry ≡ ok (forward addr)
    → (e : Endpoint) × (spelled e ≡ entry)
      × ((connect : Endpoint → Option (List ℕ)) (peer : List ℕ) (ts : List (Side × HalfTurn))
          → (serve_forward connect (record { addr = addr }) peer ts ≢ refused not_an_endpoint)
            × (connect e ≡ none
                → serve_forward connect (record { addr = addr }) peer ts ≡ refused unreached)
            × ((local : List ℕ)
                → connect e ≡ some local
                → serve_forward connect (record { addr = addr }) peer ts ≡ served
                → ((copy_of (splice_run ts (splice local peer)).upstream).written ≡ local)
                  × ((copy_of (splice_run ts (splice local peer)).downstream).written ≡ peer)))
unfolding serve_forward validate_forward
serve_forward-reaches terminal entry addr h =
    let (same, valid, plain) = legal_forward terminal entry addr h in
    let (e, dials, spelling) = endpoint-spelled addr (split_once b':' addr) refl valid in
    (
      e,
      spelling ∙ sym same,
      λ connect peer ts.
          let carried : serve_forward connect (record { addr = addr }) peer ts
              ≡ over_local (connect e) peer ts =
            ap (λ o. dialed connect o peer ts) dials in
          (
            λ no. over_local-endpoint (connect e) peer ts (sym carried ∙ no),
            λ gone. carried ∙ ap (λ o. over_local o peer ts) gone,
            λ local there done. (splice_run-delivers local peer ts).2 (
                spliced-served (outcome (splice_run ts (splice local peer)))
                  (splice_run ts (splice local peer))
                  (sym (carried ∙ ap (λ o. over_local o peer ts) there) ∙ done)),
          ),
    )
