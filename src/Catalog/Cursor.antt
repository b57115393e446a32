-- ===== src/Catalog/Cursor.antt =====
-- The cursor's reads: what each takes, and where it leaves the cursor.
use tightbeam.Base.{
  ℕ, ◌+◌, ◌^◌, ◌≤◌, ◌<◌, ◌≡◌, refl, sym, ap, ◌∙◌, List, ◌++◌, length, arith, take, drop,
  take-length, drop-length, drop-drop, length-drop, length-append, lt→ltb, le→leb, take-append-drop,
  length-take,
}
use tightbeam.Base.Results.{ok}
use tightbeam.Catalog.{take_at}

-- The cursor stands before `rest`.
pub record At (bytes : List ℕ) (cursor : ℕ) (rest : List ℕ) : Type 0 where
  pub inside : cursor ≤ length bytes
  pub ahead : drop cursor bytes ≡ rest

pub At-size :
    {bytes : List ℕ} {cursor : ℕ} (rest : List ℕ)
    → At bytes cursor rest
    → cursor + length rest ≡ length bytes
At-size {bytes} {cursor} rest a =
    omega (arith, a.inside, ap length a.ahead, length-drop cursor bytes)

pub At-move :
    {bytes : List ℕ} {cursor : ℕ} (xs rest : List ℕ)
    → At bytes cursor (xs ++ rest)
    → At bytes (cursor + length xs) rest
At-move {bytes} {cursor} xs rest a = record {
  inside = omega (arith, At-size (xs ++ rest) a, length-append xs rest);
  ahead =
      sym (drop-drop (length xs) cursor bytes)
      ∙ ap (drop (length xs)) a.ahead
      ∙ drop-length xs rest;
}

pub take_at-At :
    {bytes : List ℕ} {cursor : ℕ} (xs rest : List ℕ)
    → length bytes < 2 ^ 64
    → At bytes cursor (xs ++ rest)
    → take_at bytes cursor (length xs) ≡ ok (xs, cursor + length xs)
unfolding take_at
take_at-At {bytes} {cursor} xs rest small a =
    let fits : cursor + length xs ≤ length bytes =
      omega (arith, At-size (xs ++ rest) a, length-append xs rest) in
    rw (lt→ltb (cursor + length xs) (2 ^ 64) (omega arith)) (
      rw (le→leb (cursor + length xs) (length bytes) fits)
        (rw a.ahead (rw (take-length xs rest) refl)))

take_at_parts :
    (bytes : List ℕ) (cursor len : ℕ) (xs : List ℕ) (next : ℕ)
    → take_at bytes cursor len ≡ ok (xs, next)
    → (xs ≡ take len (drop cursor bytes)) × (next ≡ cursor + len) × (cursor + len ≤ length bytes)
unfolding take_at
take_at_parts bytes cursor len xs next h = ground arith

-- What a successful read took, and that the cursor moved over exactly that.
pub record Took (bytes : List ℕ) (cursor len : ℕ) (xs : List ℕ) (next : ℕ) : Type 0 where
  pub moved : next ≡ cursor + len
  pub inside : next ≤ length bytes
  pub size : length xs ≡ len
  pub cut : drop cursor bytes ≡ xs ++ drop next bytes

pub take_at-Took :
    (bytes : List ℕ) (cursor len : ℕ) (xs : List ℕ) (next : ℕ)
    → take_at bytes cursor len ≡ ok (xs, next)
    → Took bytes cursor len xs next
take_at-Took bytes cursor len xs next h =
    let (e, m, i) = take_at_parts bytes cursor len xs next h in
    record {
      moved = m;
      inside = omega arith;
      size =
          omega (arith, ap length e, length-take len (drop cursor bytes), length-drop cursor bytes);
      cut =
          rw (e, m, ← drop-drop len cursor bytes) (sym (take-append-drop len (drop cursor bytes)));
    }
