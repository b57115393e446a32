-- ===== src/Grammar/Endpoint.antt =====
-- The local endpoints that a forward may name: their shape apart from the code that checks it.
use tightbeam.Base.{
  ℕ, ◌+◌, ◌*◌, ◌-◌, ◌<◌, ◌≤◌, ◌≡◌, ◌≢◌, ◌⊎◌, ◌↔◌, refl, sym, ap, subst, ◌∙◌, inl, inr, true, false,
  not, Option, none, some, [], ◌∷◌, ◌++◌, All, arith, ◌==◌, same_bytes, Bool-cases, Option-cases,
  ==→eq,
}
use tightbeam.Base.Bytes.{Text}
use tightbeam.Router.Overlays.{same_bytes-eq}
use tightbeam.Lifetime.Verdict.{IsDigit, decimal, decimal_from, decimal_from-ge}
use tightbeam.Grammar.{
  split_once, rsplit_once, u16_digits, is_u16, is_empty, host_and_port, scheme_endpoint,
  validate_forward, tcp_word, unix_word,
}
use tightbeam.Grammar.Words.{split_once-append}

-- A decimal number below 2^16, with or without a plus.
abbrev pub IsPort : Text → Type 0
IsPort port =
    (ds : Text) × (ds ≢ [])
    × All IsDigit ds
    × (decimal ds < 65536)
    × ((port ≡ ds) ⊎ (port ≡ b'+' ∷ ds))

-- A path, or a host and a port.
abbrev pub IsEndpoint : Text → Type 0
IsEndpoint addr =
    ((path : Text) × (path ≢ []) × (addr ≡ unix_word ++ b':' ∷ path))
    ⊎ ((host : Text) × (port : Text) × (host ≢ [])
        × IsPort port
        × (addr ≡ tcp_word ++ b':' ∷ (host ++ b':' ∷ port)))

u16_digits-decimal :
    (acc : ℕ) (ds : Text)
    → u16_digits acc ds ≡ true
    → acc < 65536
    → All IsDigit ds × (decimal_from acc ds < 65536)
u16_digits-decimal acc [] h small = (tt, small)
u16_digits-decimal acc (b ∷ bs) h small =
    let n : ℕ = acc * 10 + (b - b'0') in
    let lo : b'0' ≤ b = ground arith in
    let hi : b ≤ b'9' = ground arith in
    let next : n < 65536 = ground arith in
    let rest : u16_digits n bs ≡ true = ground arith in
    let (all, fits) = u16_digits-decimal n bs rest next in (((lo, hi), all), fits)

decimal-u16_digits :
    (acc : ℕ) (ds : Text) → All IsDigit ds → decimal_from acc ds < 65536 → u16_digits acc ds ≡ true
decimal-u16_digits acc [] all small = refl
decimal-u16_digits acc (b ∷ bs) all small =
    let n : ℕ = acc * 10 + (b - b'0') in
    ground (arith, all.0, decimal-u16_digits n bs all.1 small, decimal_from-ge n bs)

is_u16-IsPort : (port : Text) → is_u16 port ≡ true → IsPort port
unfolding is_u16
is_u16-IsPort [] h = absurd cc
is_u16-IsPort (b ∷ []) h =
    let (all, small) = u16_digits-decimal 0 (b ∷ []) h (ground arith) in
    (b ∷ [], (λ e. absurd cc), all, small, inl refl)
is_u16-IsPort (b ∷ c ∷ bs) h = elim (Bool-cases (b == b'+')) [
  | inl plus ↦
      let (all, small) = u16_digits-decimal 0 (c ∷ bs) (rw (plus) at h) (ground arith) in
      (c ∷ bs, (λ e. absurd cc), all, small, inr (ap (λ x. x ∷ c ∷ bs) (==→eq b b'+' plus)))
  | inr digits ↦
      let (all, small) = u16_digits-decimal 0 (b ∷ c ∷ bs) (rw (digits) at h) (ground arith) in
      (b ∷ c ∷ bs, (λ e. absurd cc), all, small, inl refl)
]

digits-is_u16 : (ds : Text) → ds ≢ [] → All IsDigit ds → decimal ds < 65536 → is_u16 ds ≡ true
unfolding is_u16
digits-is_u16 [] some_digit all small = absurd (some_digit refl)
digits-is_u16 (b ∷ []) some_digit all small = decimal-u16_digits 0 (b ∷ []) all small
digits-is_u16 (b ∷ c ∷ bs) some_digit all small =
    let plain : (b == b'+') ≡ false = ground (arith, all.0.0) in
    rw (plain) (decimal-u16_digits 0 (b ∷ c ∷ bs) all small)

plus-is_u16 :
    (ds : Text) → ds ≢ [] → All IsDigit ds → decimal ds < 65536 → is_u16 (b'+' ∷ ds) ≡ true
unfolding is_u16
plus-is_u16 [] some_digit all small = absurd (some_digit refl)
plus-is_u16 (b ∷ bs) some_digit all small = decimal-u16_digits 0 (b ∷ bs) all small

rsplit_once-append : (c : ℕ) (s l r : Text) → rsplit_once c s ≡ some (l, r) → s ≡ l ++ c ∷ r
unfolding rsplit_once
rsplit_once-append c [] l r h = absurd cc
rsplit_once-append c (b ∷ bs) l r h = elim (Option-cases (rsplit_once c bs)) [
  | inr ((l', r'), e) ↦
      let h' : ◌≡◌ {A = Option (Text × Text)} (some (b ∷ l', r')) (some (l, r)) = rw (e) at h in
      let el : b ∷ l' ≡ l = cc h' in
      let er : r' ≡ r = cc h' in rw (← el, ← er) (ap (λ t. b ∷ t) (rsplit_once-append c bs l' r' e))
  | inl none_left ↦ elim (Bool-cases (b == c)) [
    | inl here ↦
        let h' : ◌≡◌ {A = Option (Text × Text)} (some ([], bs)) (some (l, r)) =
          rw (none_left, here) at h in
        let el : [] ≡ l = cc h' in let er : bs ≡ r = cc h' in rw (==→eq b c here, ← el, ← er) refl
    | inr other ↦ absurd (cc (rw (none_left, other) at h))
  ]
]

rsplit_once-hit :
    (c : ℕ) (l r : Text)
    → rsplit_once c r ≡ none
    → (c == c) ≡ true
    → rsplit_once c (l ++ c ∷ r) ≡ some (l, r)
unfolding rsplit_once
rsplit_once-hit c [] r h self = rw (h, self) refl
rsplit_once-hit c (b ∷ bs) r h self = rw (rsplit_once-hit c bs r h self) refl

rsplit_once-digits : (ds : Text) → All IsDigit ds → rsplit_once b':' ds ≡ none
unfolding rsplit_once
rsplit_once-digits [] all = refl
rsplit_once-digits (b ∷ bs) (digit, all) =
    let other : (b == b':') ≡ false = ground (arith, digit.1) in
    rw (rsplit_once-digits bs all, other) refl

IsPort-rsplit : (port : Text) → IsPort port → rsplit_once b':' port ≡ none
unfolding rsplit_once
IsPort-rsplit port (ds, some_digit, all, small, inl e) = rw (e) (rsplit_once-digits ds all)
IsPort-rsplit port (ds, some_digit, all, small, inr e) = rw (e, rsplit_once-digits ds all) refl

IsPort-is_u16 : (port : Text) → IsPort port → is_u16 port ≡ true
IsPort-is_u16 port (ds, some_digit, all, small, inl e) =
    rw (e) (digits-is_u16 ds some_digit all small)
IsPort-is_u16 port (ds, some_digit, all, small, inr e) =
    rw (e) (plus-is_u16 ds some_digit all small)

host_and_port-IsPort :
    (rest : Text) (o : Option (Text × Text))
    → rsplit_once b':' rest ≡ o
    → host_and_port o ≡ true
    → (host : Text) × (port : Text) × (host ≢ []) × IsPort port × (rest ≡ host ++ b':' ∷ port)
host_and_port-IsPort rest none is h = absurd cc
host_and_port-IsPort rest (some ([], port)) is h = absurd cc
host_and_port-IsPort rest (some (b ∷ bs, port)) is h = (
  b ∷ bs,
  port,
  (λ e. absurd cc),
  is_u16-IsPort port h,
  rsplit_once-append b':' rest (b ∷ bs) port is,
)

scheme_endpoint-IsEndpoint :
    (addr : Text) (o : Option (Text × Text))
    → split_once b':' addr ≡ o
    → scheme_endpoint o ≡ true
    → IsEndpoint addr
scheme_endpoint-IsEndpoint addr none is h = absurd cc
scheme_endpoint-IsEndpoint addr (some (scheme, rest)) is h =
    elim (Bool-cases (same_bytes scheme tcp_word)) [
      | inl tcp ↦
          let (host, port, there, number, e) =
            host_and_port-IsPort rest (rsplit_once b':' rest) refl (rw (tcp) at h) in
          inr (host, port, there, number, spelt tcp_word tcp ∙ ap (λ t. tcp_word ++ b':' ∷ t) e)
      | inr other ↦ elim (Bool-cases (same_bytes scheme unix_word)) [
        | inl local ↦ inl (rest, filled rest (rw (other, local) at h), spelt unix_word local)
        | inr neither ↦ absurd (cc (rw (other, neither) at h))
      ]
    ]
  where
    filled : (t : Text) → not (is_empty t) ≡ true → t ≢ []
    filled [] h' = absurd cc
    filled (b ∷ bs) h' = λ e. absurd cc

    spelt : (word : Text) → same_bytes scheme word ≡ true → addr ≡ word ++ b':' ∷ rest
    spelt word e =
        subst (λ w. addr ≡ w ++ b':' ∷ rest) (same_bytes-eq scheme word e)
          (split_once-append b':' addr scheme rest is)

-- The check of a forward passes an endpoint and nothing else.
pub validate_forward_iff : (addr : Text) → (validate_forward addr ≡ true) ↔ IsEndpoint addr
unfolding validate_forward split_once same_bytes
validate_forward_iff addr = (
  scheme_endpoint-IsEndpoint addr (split_once b':' addr) refl,
  λ h. elim h [
    | inl (path, filled, e) ↦ subst (λ a. validate_forward a ≡ true) (sym e) (by_path path filled)
    | inr (host, port, there, number, e) ↦
        subst (λ a. validate_forward a ≡ true) (sym e) (by_host host port there number)
  ],
)
  where
    by_path : (path : Text) → path ≢ [] → validate_forward (unix_word ++ b':' ∷ path) ≡ true
    by_path [] filled = absurd (filled refl)
    by_path (b ∷ bs) filled = refl

    by_host :
        (host port : Text)
        → host ≢ []
        → IsPort port
        → validate_forward (tcp_word ++ b':' ∷ (host ++ b':' ∷ port)) ≡ true
    by_host [] port there number = absurd (there refl)
    by_host (b ∷ bs) port there number =
        rw (rsplit_once-hit b':' (b ∷ bs) port (IsPort-rsplit port number) refl)
          (IsPort-is_u16 port number)
