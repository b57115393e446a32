-- ===== src/Base/Stream.antt =====
-- Byte streams. A reader's state is the bytes that will still arrive before end of input, a
-- writer's state the bytes written so far, and an outcome carries the state that it leaves, on the
-- error path too: what a failed read consumed and what a failed write had already sent.
use Prim.Native.Nat.{ℕ}
use mathlib.Core.Path.{◌≡◌, refl}
use mathlib.Core.List.{List, [], ◌++◌}
use native.Mathlib.Omega.{arith}
use tightbeam.Base.Tests.{leb, if◌then◌else◌, le→leb}
use tightbeam.Base.Lists.{length, take, drop, take-length, drop-length, length-append}

-- The `io::Error`s that the code itself raises, and the end of input that `read_exact` reports.
pub data Message : Type 0 where
  string_too_long detail_too_long invalid_utf8 invalid_detail : Message
  unknown_presence unknown_code unknown_tag unencodable : ℕ → Message

pub data IoError : Type 0 where
  unexpected_eof : IoError
  other : Message → IoError

pub data Outcome (E A : Type 0) : Type 0 where
  ok : A → List ℕ → Outcome E A
  err : E → List ℕ → Outcome E A

abbrev pub Io : Type 0 → Type 0 → Type 0
Io E A = List ℕ → Outcome E A

abbrev pub and_then : {E A B : Type 0} → Outcome E A → (A → Io E B) → Outcome E B
and_then (ok a s) f = f a s
and_then (err e s) f = err e s

infixl 5 ◌>>=◌ ◌>>◌
abbrev pub ◌>>=◌ : {E A B : Type 0} → Io E A → (A → Io E B) → Io E B
◌>>=◌ m f s = and_then (m s) f

abbrev pub ◌>>◌ : {E B : Type 0} → Io E (Unit {0}) → Io E B → Io E B
◌>>◌ m k = m >>= λ _. k

abbrev pub return : {E A : Type 0} → A → Io E A
return a s = ok a s

abbrev pub fail : {E A : Type 0} → E → Io E A
fail e s = err e s

abbrev pub fails_as : {E F A : Type 0} → (E → F) → Outcome E A → Outcome F A
fails_as f (ok a s) = ok a s
fails_as f (err e s) = err (f e) s

-- `?` across two error types.
abbrev pub map_err : {E F A : Type 0} → (E → F) → Io E A → Io F A
map_err f m s = fails_as f (m s)

-- `read_exact`: the next `n` bytes, or end of input with everything consumed.
unfoldable pub read_exact : ℕ → Io IoError (List ℕ)
read_exact n s = if leb n (length s) then ok (take n s) (drop n s) else err unexpected_eof []

-- `write_all` to a stream that takes every byte.
abbrev pub write_all : {E : Type 0} → List ℕ → Io E (Unit {0})
write_all bs s = ok tt (s ++ bs)

pub read_exact-append :
    (n : ℕ) (xs rest : List ℕ) → length xs ≡ n → read_exact n (xs ++ rest) ≡ ok xs rest
unfolding read_exact
read_exact-append n xs rest h = rw (← h) (
    rw (le→leb (length xs) (length (xs ++ rest)) (omega (arith, length-append xs rest)))
      (rw (take-length xs rest, drop-length xs rest)))

-- Inversion of a successful step.
pub and_then-eq-ok :
    {E A B : Type 0} (o : Outcome E A) (f : A → Io E B) {b : B} {s' : List ℕ}
    → and_then o f ≡ ok b s'
    → (a : A) × (s : List ℕ) × (o ≡ ok a s) × (f a s ≡ ok b s')
and_then-eq-ok (ok a s) f h = (a, s, refl, h)
and_then-eq-ok (err e s) f h = cc
