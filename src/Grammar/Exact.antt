-- ===== src/Grammar/Exact.antt =====
-- The grammar guesses nothing: a target is what it is spelt as.
use tightbeam.Base.{
  ◌≡◌, refl, sym, subst, ap, ◌∙◌, ◌≢◌, inl, inr, Bool, true, false, append-nil, not, ◌&&◌, ◌||◌, [],
  ◌∷◌, ◌++◌, same_bytes, Bool-cases, Option-cases, ◌↔◌,
}
use tightbeam.Base.Bytes.{Text}
use tightbeam.Base.Results.{Result, ok, ok-injective, ◌>>◌}
use tightbeam.Router.Overlays.{same_bytes-eq}
use tightbeam.Grammar.{
  Misspelt, Spec, forward, file, fifo, stdin, echo, split_once, strip_suffix, validate_forward,
  with_path, no_argument, stdin_source, by_scheme, lossy_allowed, with_scheme, stripped,
  parse_target, tcp_word, unix_word, file_word, fifo_word, stdin_word, echo_word, lossy_word,
}
use tightbeam.Grammar.Endpoint.{validate_forward_iff}
use tightbeam.Grammar.Words.{split_once-append, strip_suffix-append, strip_suffix-hit}
use tightbeam.Grammar.Spelling.{if_cases, spell, IsPlain, IsLegal, parse_target-spell}

-- The text before the mark.
abbrev unmarked : Spec → Text
unmarked (forward addr) = addr
unmarked (file path) = file_word ++ b':' ∷ path
unmarked (fifo path lossy) = fifo_word ++ b':' ∷ path
unmarked (stdin lossy) = stdin_word ++ b':' ∷ []
unmarked echo = echo_word ++ b':' ∷ []

-- What a scheme and its mark allow.
abbrev Fits : Bool → Bool → Spec → Type 0
Fits terminal lossy (forward addr) = (validate_forward addr ≡ true) × (lossy ≡ false)
Fits terminal lossy (file path) = (path ≢ []) × (lossy ≡ false)
Fits terminal lossy (fifo path marked) = (path ≢ []) × (marked ≡ lossy)
Fits terminal lossy (stdin marked) = (terminal ≡ false) × (marked ≡ lossy)
Fits terminal lossy echo = lossy ≡ false

with_path-ok : (path : Text) (s spec : Spec) → with_path path s ≡ ok spec → (path ≢ []) × (s ≡ spec)
with_path-ok [] s spec h = absurd cc
with_path-ok (b ∷ bs) s spec h = ((λ e. absurd cc), cc h)

no_argument-ok :
    (rest : Text) (r : Result Misspelt Spec) (spec : Spec)
    → (no_argument rest >> r) ≡ ok spec
    → (rest ≡ []) × (r ≡ ok spec)
no_argument-ok [] r spec h = (refl, h)
no_argument-ok (b ∷ bs) r spec h = absurd cc

unmarked_word :
    (lossy : Bool) (scheme word : Text)
    → scheme ≡ word
    → lossy_allowed word ≡ false
    → lossy && not (lossy_allowed scheme) ≡ false
    → lossy ≡ false
unmarked_word false scheme word e never allowed = refl
unmarked_word true scheme word e never allowed = absurd (cc (rw (e, never) at allowed))

by_scheme-Fits :
    (terminal lossy : Bool) (addr scheme rest : Text) (spec : Spec)
    → addr ≡ scheme ++ b':' ∷ rest
    → lossy && not (lossy_allowed scheme) ≡ false
    → by_scheme terminal lossy addr scheme rest ≡ ok spec
    → (addr ≡ unmarked spec) × Fits terminal lossy spec
unfolding by_scheme same_bytes
by_scheme-Fits terminal lossy addr scheme rest spec whole allowed h =
    if_cases (same_bytes scheme tcp_word || same_bytes scheme unix_word) _ _ h
      (λ local h1.
        if_cases (validate_forward addr) _ _ h1
          (λ valid h2. become (forward addr) (ok-injective h2) (refl, (valid, local_plain local)))
          (λ invalid h2. absurd cc))
      (λ n1 h1.
        if_cases (same_bytes scheme file_word) _ _ h1
          (λ e h2.
            let (some_path, e') = with_path-ok rest (file rest) spec h2 in
            become (file rest) e' (spelt file_word e, (some_path, plain file_word e refl)))
          (λ n2 h2.
            if_cases (same_bytes scheme fifo_word) _ _ h2
              (λ e h3.
                let (some_path, e') = with_path-ok rest (fifo rest lossy) spec h3 in
                become (fifo rest lossy) e' (spelt fifo_word e, (some_path, refl)))
              (λ n3 h3.
                if_cases (same_bytes scheme stdin_word) _ _ h3
                  (λ e h4.
                    let (nothing, h5) = no_argument-ok rest (stdin_source terminal lossy) spec h4 in
                    if_cases terminal _ _ h5 (λ tty h6. absurd cc)
                      (λ piped h6.
                        become (stdin lossy) (ok-injective h6)
                          (rw (← nothing) (spelt stdin_word e), (piped, refl))))
                  (λ n4 h4.
                    if_cases (same_bytes scheme echo_word) _ _ h4
                      (λ e h5.
                        let (nothing, h6) = no_argument-ok rest (ok echo) spec h5 in
                        become echo (ok-injective h6)
                          (rw (← nothing) (spelt echo_word e), plain echo_word e refl))
                      (λ n5 h5. absurd cc)))))
  where
    become :
        (s : Spec)
        → s ≡ spec
        → (addr ≡ unmarked s) × Fits terminal lossy s
        → (addr ≡ unmarked spec) × Fits terminal lossy spec
    become s e = subst (λ x. (addr ≡ unmarked x) × Fits terminal lossy x) e

    spelt : (word : Text) → same_bytes scheme word ≡ true → addr ≡ word ++ b':' ∷ rest
    spelt word e = subst (λ w. addr ≡ w ++ b':' ∷ rest) (same_bytes-eq scheme word e) whole

    plain :
        (word : Text) → same_bytes scheme word ≡ true → lossy_allowed word ≡ false → lossy ≡ false
    plain word e never = unmarked_word lossy scheme word (same_bytes-eq scheme word e) never allowed

    local_plain : same_bytes scheme tcp_word || same_bytes scheme unix_word ≡ true → lossy ≡ false
    local_plain e = elim (Bool-cases (same_bytes scheme tcp_word)) [
      | inl tcp ↦ plain tcp_word tcp refl
      | inr other ↦ plain unix_word (rw (other) at e) refl
    ]

with_scheme-Fits :
    (terminal lossy : Bool) (addr : Text) (spec : Spec)
    → with_scheme terminal lossy addr (split_once b':' addr) ≡ ok spec
    → (addr ≡ unmarked spec) × Fits terminal lossy spec
with_scheme-Fits terminal lossy addr spec h = elim (Option-cases (split_once b':' addr)) [
  | inl e ↦ absurd (cc (rw (e) at h))
  | inr ((scheme, rest), e) ↦
      if_cases (lossy && not (lossy_allowed scheme)) _ _
        (subst (λ o. with_scheme terminal lossy addr o ≡ ok spec) e h) (λ refused h1. absurd cc)
        (λ allowed h1.
          by_scheme-Fits terminal lossy addr scheme rest spec
            (split_once-append b':' addr scheme rest e) allowed h1)
]

Fits-true :
    (terminal : Bool) (spec : Spec)
    → Fits terminal true spec
    → (spell spec ≡ unmarked spec ++ lossy_word) × IsLegal terminal spec
Fits-true terminal (forward addr) fits = absurd cc
Fits-true terminal (file path) fits = absurd cc
Fits-true terminal (fifo path true) fits = (refl, fits.0)
Fits-true terminal (fifo path false) fits = absurd cc
Fits-true terminal (stdin true) fits = (refl, fits.0)
Fits-true terminal (stdin false) fits = absurd cc
Fits-true terminal echo fits = absurd cc

Fits-false :
    (terminal : Bool) (spec : Spec)
    → Fits terminal false spec
    → IsPlain (unmarked spec)
    → (spell spec ≡ unmarked spec) × IsLegal terminal spec
Fits-false terminal (forward addr) fits plain =
    (refl, ((validate_forward_iff addr).0 fits.0, plain))
Fits-false terminal (file path) fits plain = (refl, (fits.0, plain))
Fits-false terminal (fifo path true) fits plain = absurd cc
Fits-false terminal (fifo path false) fits plain = (append-nil _, (fits.0, plain))
Fits-false terminal (stdin true) fits plain = absurd cc
Fits-false terminal (stdin false) fits plain = (refl, fits.0)
Fits-false terminal echo fits plain = (refl, tt)

parse_target-IsLegal :
    (terminal : Bool) (addr : Text) (spec : Spec)
    → parse_target terminal addr ≡ ok spec
    → (addr ≡ spell spec) × IsLegal terminal spec
unfolding parse_target
parse_target-IsLegal terminal addr spec h = elim (Option-cases (strip_suffix lossy_word addr)) [
  | inl e ↦
      let (same, fits) =
        with_scheme-Fits terminal false addr spec
          (subst (λ o. stripped terminal addr o ≡ ok spec) e h) in
      let (spelt, legal) = Fits-false terminal spec fits (
        subst IsPlain same (λ b marked.
          absurd (cc (strip_suffix-hit lossy_word b, ap (strip_suffix lossy_word) marked, e)))) in
      (same ∙ sym spelt, legal)
  | inr (base, e) ↦
      let (same, fits) =
        with_scheme-Fits terminal true base spec
          (subst (λ o. stripped terminal addr o ≡ ok spec) e h) in
      let (spelt, legal) = Fits-true terminal spec fits in
      (
        strip_suffix-append lossy_word addr base e ∙ ap (λ t. t ++ lossy_word) same ∙ sym spelt,
        legal,
      )
]

-- A target is accepted exactly when it is the spelling of something that may be served, and is taken
-- for just that: a local endpoint with a host and a decimal port below 2^16, or with a path; a file or a
-- FIFO with a path; standard input that is no terminal; or the reflector. The mark of the fan-out stands
-- on a FIFO or standard input alone.
pub parse_target_iff :
    (terminal : Bool) (addr : Text) (spec : Spec)
    → (parse_target terminal addr ≡ ok spec) ↔ ((addr ≡ spell spec) × IsLegal terminal spec)
parse_target_iff terminal addr spec = (
  parse_target-IsLegal terminal addr spec,
  λ h.
      subst (λ a. parse_target terminal a ≡ ok spec) (sym h.0)
        (parse_target-spell terminal spec h.1),
)
