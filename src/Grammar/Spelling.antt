-- ===== src/Grammar/Spelling.antt =====
-- How a target is spelt, and that what is legal is accepted.
use tightbeam.Base.{
  ◌≡◌, refl, sym, subst, ◌≢◌, inl, inr, Bool, true, false, append-nil, [], ◌∷◌, ◌++◌, same_bytes,
  Option-cases, if◌then◌else◌,
}
use tightbeam.Base.Bytes.{Text}
use tightbeam.Base.Results.{ok}
use tightbeam.Grammar.{
  Spec, forward, file, fifo, stdin, echo, split_once, validate_forward, by_scheme, with_scheme,
  parse_target, tcp_word, unix_word, file_word, fifo_word, stdin_word, echo_word, lossy_word,
  scheme_endpoint,
}
use tightbeam.Grammar.Endpoint.{IsEndpoint, validate_forward_iff}
use tightbeam.Grammar.Words.{strip_suffix-hit, strip_suffix-none}

pub if_cases :
    {A P : Type 0} (b : Bool) (x y : A) {z : A}
    → (if b then x else y) ≡ z
    → (b ≡ true → x ≡ z → P)
    → (b ≡ false → y ≡ z → P)
    → P
if_cases true x y h yes_so not_so = yes_so refl h
if_cases false x y h yes_so not_so = not_so refl h

abbrev pub mark : Bool → Text
mark true = lossy_word
mark false = []

-- The one spelling of a target.
abbrev pub spell : Spec → Text
spell (forward addr) = addr
spell (file path) = file_word ++ b':' ∷ path
spell (fifo path lossy) = (fifo_word ++ b':' ∷ path) ++ mark lossy
spell (stdin lossy) = (stdin_word ++ b':' ∷ []) ++ mark lossy
spell echo = echo_word ++ b':' ∷ []

-- A spelling that claims no fan-out.
abbrev pub IsPlain : Text → Type 0
IsPlain addr = (b : Text) → addr ≢ b ++ lossy_word

-- What may be served, where the standard input is a terminal or not.
abbrev pub IsLegal : Bool → Spec → Type 0
IsLegal terminal (forward addr) = IsEndpoint addr × IsPlain addr
IsLegal terminal (file path) = (path ≢ []) × IsPlain (file_word ++ b':' ∷ path)
IsLegal terminal (fifo path true) = path ≢ []
IsLegal terminal (fifo path false) = (path ≢ []) × IsPlain (fifo_word ++ b':' ∷ path)
IsLegal terminal (stdin lossy) = terminal ≡ false
IsLegal terminal echo = Unit {0}

-- A local endpoint has one of the two schemes.
forward_scheme :
    (terminal : Bool) (addr : Text)
    → validate_forward addr ≡ true
    → with_scheme terminal false addr (split_once b':' addr) ≡ ok (forward addr)
unfolding validate_forward by_scheme
forward_scheme terminal addr valid = elim (Option-cases (split_once b':' addr)) [
  | inl e ↦ absurd (cc (rw (e, validate_forward) at valid))
  | inr ((scheme, rest), e) ↦
      subst (λ o. with_scheme terminal false addr o ≡ ok (forward addr)) (sym e)
        (if_cases (same_bytes scheme tcp_word) _ _ (subst (λ o. scheme_endpoint o ≡ true) e valid)
          (λ tcp h. rw (tcp, valid) refl)
          (λ other h.
            if_cases (same_bytes scheme unix_word) _ _ h (λ local h1. rw (other, local, valid) refl)
              (λ neither h1. absurd cc)))
]

pub parse_target-spell :
    (terminal : Bool) (spec : Spec)
    → IsLegal terminal spec
    → parse_target terminal (spell spec) ≡ ok spec
unfolding parse_target by_scheme same_bytes split_once
parse_target-spell terminal (forward addr) (endpoint, plain) =
    rw (strip_suffix-none lossy_word addr plain)
      (forward_scheme terminal addr ((validate_forward_iff addr).1 endpoint))
parse_target-spell terminal (file []) (some_path, plain) = absurd (some_path refl)
parse_target-spell terminal (file (b ∷ bs)) (some_path, plain) =
    rw (strip_suffix-none lossy_word (file_word ++ b':' ∷ b ∷ bs) plain, parse_target) refl
parse_target-spell terminal (fifo [] true) some_path = absurd (some_path refl)
parse_target-spell terminal (fifo (b ∷ bs) true) some_path =
    rw (strip_suffix-hit lossy_word (fifo_word ++ b':' ∷ b ∷ bs), parse_target) refl
parse_target-spell terminal (fifo [] false) (some_path, plain) = absurd (some_path refl)
parse_target-spell terminal (fifo (b ∷ bs) false) (some_path, plain) =
    subst (λ a. parse_target terminal a ≡ ok (fifo (b ∷ bs) false))
      (sym (append-nil (fifo_word ++ b':' ∷ b ∷ bs)))
      (rw (strip_suffix-none lossy_word (fifo_word ++ b':' ∷ b ∷ bs) plain, parse_target) refl)
parse_target-spell false (stdin true) piped = refl
parse_target-spell false (stdin false) piped = refl
parse_target-spell true (stdin lossy) piped = absurd cc
parse_target-spell terminal echo legal = refl
