-- ===== src/Enabled/Listed.antt =====
-- From a line of the file to the answer of a check.
use tightbeam.Base.{
  ℕ, ◌≡◌, ◌≢◌, refl, sym, ap, ◌∙◌, Bool, true, false, Option, none, some, List, [], ◌∷◌, ◌++◌, map,
  any, All, ◌==◌, if◌then◌else◌, same_bytes, Bool-cases, inl, inr,
}
use tightbeam.Base.Bytes.{Text}
use tightbeam.Base.Results.{ok, ok-injective}
use tightbeam.Grammar.Words.{same_bytes_self}
use tightbeam.Enabled.{Stamp, State, lists}
use tightbeam.Enabled.Closed.{keeps, answers, answers-disabled}
use tightbeam.Enabled.Decode.{
  onto_first, lines, contents, with_name, with_line, names_of, parse_names, load_file, FileCheck,
  decoded, as_check,
}

-- The text is empty, or its last line is ended.
abbrev pub ends_line : Text → Bool
ends_line [] = true
ends_line (b ∷ []) = b == b'\n'
ends_line (b ∷ c ∷ bs) = ends_line (c ∷ bs)

lines_cons : (b : ℕ) (bs : Text) → (l : Text) × (ls : List Text) × (lines (b ∷ bs) ≡ l ∷ ls)
unfolding lines
lines_cons b bs = elim (Bool-cases (b == b'\n')) [
  | inl ended ↦ ([], lines bs, rw (ended) refl)
  | inr within ↦ by_rest (lines bs) within
]
  where
    by_rest :
        (rest : List Text)
        → (b == b'\n') ≡ false
        → (l : Text) × (ls : List Text) × ((if b == b'\n' then [] ∷ rest else onto_first b rest)
            ≡ l ∷ ls)
    by_rest [] within = (b ∷ [], [], rw (within) refl)
    by_rest (l ∷ ls) within = (b ∷ l, ls, rw (within) refl)

onto_first-append :
    (b : ℕ) (xs ys : List Text) {l : Text} {ls : List Text}
    → xs ≡ l ∷ ls
    → onto_first b (xs ++ ys) ≡ onto_first b xs ++ ys
onto_first-append b [] ys h = absurd cc
onto_first-append b (x ∷ xs) ys h = refl

lines-append :
    (before rest : Text)
    → ends_line before ≡ true
    → lines (before ++ rest) ≡ lines before ++ lines rest
unfolding lines
lines-append [] rest h = refl
lines-append (b ∷ []) rest h = rw (h) refl
lines-append (b ∷ c ∷ bs) rest h = elim (Bool-cases (b == b'\n')) [
  | inl ended ↦ rw (ended) (ap (λ l. [] ∷ l) (lines-append (c ∷ bs) rest h))
  | inr within ↦
      let (l, ls, e) = lines_cons c bs in
      rw (within) (
        ap (onto_first b) (lines-append (c ∷ bs) rest h)
        ∙ onto_first-append b (lines (c ∷ bs)) (lines rest) e)
]

-- One line, with its end.
lines_line :
    (line rest : Text)
    → any (λ b. b == b'\n') line ≡ false
    → lines (line ++ b'\n' ∷ rest) ≡ line ∷ lines rest
unfolding lines
lines_line [] rest h = refl
lines_line (b ∷ bs) rest h = elim (Bool-cases (b == b'\n')) [
  | inl ended ↦ absurd (cc (rw (ended) at h))
  | inr within ↦ rw (within) (ap (onto_first b) (lines_line bs rest (rw (within) at h)))
]

module _ (trim : Text → Text) (parse_service : Text → Option Text) where
  -- The text has a line of its own whose trimmed text is the name of the service.
  pub record HasLine (service text : Text) : Type 0 where
    pub before : Text
    pub line : Text
    pub rest : Text
    pub splits : text ≡ before ++ (line ++ b'\n' ∷ rest)
    pub starts : ends_line before ≡ true
    pub one_line : any (λ b. b == b'\n') line ≡ false
    pub not_blank : trim line ≢ []
    pub named : parse_service (trim line) ≡ some service

  with_line-named :
      (trimmed service : Text) (names : List Text)
      → trimmed ≢ []
      → parse_service trimmed ≡ some service
      → lists service (with_line trim parse_service trimmed names) ≡ true
  with_line-named [] service names present h = absurd (present refl)
  with_line-named (b ∷ bs) service names present h = rw (h, same_bytes_self service) refl

  with_line-lists :
      (trimmed service : Text) (names : List Text)
      → lists service names ≡ true
      → lists service (with_line trim parse_service trimmed names) ≡ true
  with_line-lists [] service names h = h
  with_line-lists (b ∷ bs) service names h = by_name (parse_service (b ∷ bs))
    where
      by_name : (o : Option Text) → lists service (with_name trim parse_service o names) ≡ true
      by_name none = h
      by_name (some name) = elim (Bool-cases (same_bytes name service)) [
        | inl same ↦ rw (same) refl
        | inr other ↦ rw (other) h
      ]

  names_of-lists :
      (service line : Text) (xs ys : List Text)
      → trim line ≢ []
      → parse_service (trim line) ≡ some service
      → lists service (names_of trim parse_service (xs ++ line ∷ ys)) ≡ true
  unfolding names_of
  names_of-lists service line [] ys present h =
      with_line-named (trim line) service (names_of trim parse_service ys) present h
  names_of-lists service line (x ∷ xs) ys present h =
      with_line-lists (trim x) service (names_of trim parse_service (xs ++ line ∷ ys))
        (names_of-lists service line xs ys present h)

  parse_names-lists :
      (service text : Text)
      → HasLine service text
      → lists service (parse_names trim parse_service text) ≡ true
  unfolding parse_names
  parse_names-lists service text h =
      ap (λ t. lists service (names_of trim parse_service (lines t))) h.splits
      ∙ (ap (λ l. lists service (names_of trim parse_service l))
            (lines-append h.before (h.line ++ b'\n' ∷ h.rest) h.starts
              ∙ ap (λ l. lines h.before ++ l) (lines_line h.line h.rest h.one_line))
          ∙ names_of-lists service h.line (lines h.before) (lines h.rest) h.not_blank h.named)

  -- A read that failed, or a text with the line.
  abbrev pub StillListed : Text → Option Text → Type 0
  StillListed service none = Unit {0}
  StillListed service (some text) = HasLine service text

  decoded-keeps :
      (service : Text) (text : Option Text)
      → StillListed service text
      → keeps service (decoded trim parse_service text) ≡ true
  decoded-keeps service none h = refl
  decoded-keeps service (some text) h = parse_names-lists service text h

  All-keep :
      (service : Text) (checks : List (FileCheck trim parse_service))
      → All (λ c. StillListed service c.text) checks
      → All (λ c. keeps service c.names ≡ true) (map (as_check trim parse_service) checks)
  All-keep service [] h = tt
  All-keep service (c ∷ cs) h = (decoded-keeps service c.text h.0, All-keep service cs h.1)

  loaded_lists :
      {Error : Type 0} (service text : Text) (stamp : Option Stamp) (state : State)
      → load_file trim parse_service {Error = Error} (contents text stamp) ≡ ok state
      → HasLine service text
      → lists service state.disabled ≡ true
  unfolding load_file
  loaded_lists service text stamp state h line =
      ap (λ s. lists service s.disabled) (sym (ok-injective h))
      ∙ parse_names-lists service text line

  -- A service stays disabled from the file that named it. When the file that was loaded had a line of its
  -- own with the service's name, every later check finds the service disabled, however the file's
  -- metadata, its absence, failed reads and the debounce fall, as long as each text that is read has
  -- such a line.
  pub listed-disabled :
      {Error : Type 0} (service text : Text) (stamp : Option Stamp) (state : State)
      (checks : List (FileCheck trim parse_service))
      → load_file trim parse_service {Error = Error} (contents text stamp) ≡ ok state
      → HasLine service text
      → All (λ c. StillListed service c.text) checks
      → All
          (λ answer. answer ≡ false)
          (answers (map (as_check trim parse_service) checks) service state)
  listed-disabled service text stamp state checks h line later =
      answers-disabled (map (as_check trim parse_service) checks) service state
        (All-keep service checks later) (loaded_lists service text stamp state h line)
