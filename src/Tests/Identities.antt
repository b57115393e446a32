-- ===== src/Tests/Identities.antt =====
-- A node that persists its key, on a disk of key files.
use tightbeam.Base.{
  ℕ, ◌≡◌, ◌≢◌, refl, ap, ◌∙◌, true, false, Option, none, some, [], ◌∷◌, inl, inr, Bool-cases, not,
  subst, same_bytes, if◌then◌else◌, ◌==◌, ==→eq,
}
use tightbeam.Base.Bytes.{Text}
use tightbeam.Base.Results.{Result, ok, err, ok-injective}
use tightbeam.Grammar.Words.{same_bytes_self}
use tightbeam.Router.Overlays.{same_bytes-eq}
use tightbeam.Identity.{
  Stored, plain, locked, KeyStore, Env, no_home, entropy, key, sealed, key_file, load, write,
}
use tightbeam.Identity.Kept.{load_kept}
use tightbeam.Identity.Lasting.{load-load}

-- The secrets are numbers, and a file that holds another key refuses with 1.
abbrev Files : Type 0
Files = Text → Result ℕ (Option (Stored ℕ))

abbrev put : Files → Text → ℕ → Files
put d p s = λ q. if same_bytes q p then ok (some (plain s)) else d q

abbrev adopt_over : Files → Text → ℕ → Result ℕ (Option (Stored ℕ)) → Files × Result ℕ (Unit {0})
adopt_over d p s (ok none) = (put d p s, ok tt)
adopt_over d p s (ok (some (plain old))) = (d, if old == s then ok tt else err 1)
adopt_over d p s (ok (some locked)) = (d, err 1)
adopt_over d p s (err e) = (d, err e)

put_here : (d : Files) (p : Text) (s : ℕ) → put d p s p ≡ ok (some (plain s))
put_here d p s = rw (same_bytes_self p) refl

put_there : (d : Files) (p q : Text) (s : ℕ) → q ≢ p → put d p s q ≡ d q
put_there d p q s other = elim (Bool-cases (same_bytes q p)) [
  | inl same ↦ absurd (other (same_bytes-eq q p same))
  | inr differs ↦ rw (differs) refl
]

adopt_over_done :
    (d : Files) (p : Text) (s : ℕ) (held : Result ℕ (Option (Stored ℕ)))
    → d p ≡ held
    → (adopt_over d p s held).1 ≡ ok tt
    → (adopt_over d p s held).0 p ≡ ok (some (plain s))
adopt_over_done d p s (ok none) here h = put_here d p s
adopt_over_done d p s (ok (some (plain old))) here h = elim (Bool-cases (old == s)) [
  | inl same ↦ here ∙ ap (λ x. ok (some (plain x))) (==→eq old s same)
  | inr differs ↦ absurd (cc (rw (differs) at h))
]
adopt_over_done d p s (ok (some locked)) here h = absurd cc
adopt_over_done d p s (err e) here h = absurd cc

adopt_over_kept :
    (d : Files) (p : Text) (s : ℕ) (q : Text) (held : Result ℕ (Option (Stored ℕ)))
    → d p ≡ held
    → d q ≢ ok none
    → (adopt_over d p s held).0 q ≡ d q
adopt_over_kept d p s q (ok none) here present =
    put_there d p q s (λ same. present (ap d same ∙ here))
adopt_over_kept d p s q (ok (some (plain old))) here present = refl
adopt_over_kept d p s q (ok (some locked)) here present = refl
adopt_over_kept d p s q (err e) here present = refl

done_not_failed : {e : ℕ} → ◌≢◌ {A = Result ℕ (Unit {0})} (ok tt) (err e)
done_not_failed h = absurd (cc h)

abbrev or_else : Option Text → Text → Text
or_else none t = t
or_else (some p) t = p

-- A directory does not load, with 2.
abbrev as_dir : Result ℕ (Option (Stored ℕ)) → Result ℕ (Option (Stored ℕ))
as_dir (ok none) = err 2
as_dir (ok (some held)) = ok (some held)
as_dir (err e) = err e

abbrev make_dir : Files → Text → Files
make_dir d p = λ q. if same_bytes q p then as_dir (d q) else d q

as_dir_kept : (r : Result ℕ (Option (Stored ℕ))) → r ≢ ok none → as_dir r ≡ r
as_dir_kept (ok none) h = absurd (h refl)
as_dir_kept (ok (some held)) h = refl
as_dir_kept (err e) h = refl

make_dir_kept : (d : Files) (p q : Text) → d q ≢ ok none → make_dir d p q ≡ d q
make_dir_kept d p q present = elim (Bool-cases (same_bytes q p)) [
  | inl same ↦ rw (same) (as_dir_kept (d q) present)
  | inr other ↦ rw (other) refl
]

-- The one directory.
abbrev home_dir : Text
home_dir = b'k' ∷ []

make_dir_within :
    (d : Files) (p q : Text)
    → ◌≡◌ {A = Option Text} (some home_dir) (some p)
    → not (same_bytes q home_dir) ≡ true
    → d q ≡ ok none
    → make_dir d p q ≡ ok none
make_dir_within d p q e named absent =
    let is : home_dir ≡ p = ap (λ o. or_else o []) e in
    elim (Bool-cases (same_bytes q home_dir)) [
      | inl same ↦ absurd (cc (rw (same) at named))
      | inr other ↦ subst (λ x. make_dir d x q ≡ ok none) is (rw (other) absent)
    ]

-- No write fails, and the file of every path is in the one directory.
abbrev key_files : KeyStore
key_files = record {
  Disk = Files;
  Secret = ℕ;
  Error = ℕ;
  not_a_file = λ e. none;
  is_named = λ p. not (same_bytes p home_dir);
  is_dir = λ d p. false;
  parent = λ p. some home_dir;
  join = λ base rest. base;
  load = λ d p. d p;
  write = λ d p s. (put d p s, ok tt);
  adopt = λ d p s. adopt_over d p s (d p);
  create_dir = λ d p. (make_dir d p, true);
  write_failed = λ d p s e q h. absurd (done_not_failed h);
  write_done = λ d p s h. put_here d p s;
  write_kept = λ d p s q absent present. put_there d p q s (λ same. present (ap d same ∙ absent));
  adopt_done = λ d p s h. adopt_over_done d p s (d p) refl h;
  adopt_kept = λ d p s q present. adopt_over_kept d p s q (d p) refl present;
  create_dir_kept = make_dir_kept;
  create_dir_within = make_dir_within;
}

abbrev empty_disk : Files
empty_disk = λ q. ok none

-- One sealed file, and nothing else.
abbrev sealed_disk : Files
sealed_disk = λ q. if same_bytes q (b's' ∷ []) then ok (some locked) else ok none

abbrev at_home : Env
at_home = record { tightbeam_key = none; home = some (b'h' ∷ []) }

sealed_refused :
    load key_files at_home (some (b's' ∷ [])) (some 7) sealed_disk
    ≡ (sealed_disk, err (sealed (b's' ∷ [])))
unfolding load key_file same_bytes
sealed_refused = refl

homeless :
    (load key_files (record { tightbeam_key = none; home = none }) none (some 7) empty_disk).1
    ≡ err no_home
unfolding load key_file
homeless = refl

no_random : (load key_files at_home none none empty_disk).1 ≡ err entropy
unfolding load key_file
no_random = refl

minted_home :
    load key_files at_home none (some 7) empty_disk
    ≡ (put (make_dir empty_disk home_dir) (b'h' ∷ []) 7, ok 7)
unfolding load key_file
minted_home = refl

-- The directory is in the way of a key.
dir_in_the_way :
    (load key_files at_home (some home_dir) (some 7) (make_dir empty_disk home_dir)).1 ≡ err (key 2)
unfolding load key_file same_bytes
dir_in_the_way = refl

adopted_home :
    (write key_files at_home none 7 (put (make_dir empty_disk home_dir) (b'h' ∷ []) 7)).1 ≡ ok tt
unfolding write key_file same_bytes
adopted_home = refl

sealed_there : sealed_disk (b's' ∷ []) ≢ ok none
unfolding same_bytes
sealed_there h = absurd (cc h)

-- A mint at home leaves the sealed file.
load_kept_example :
    (load key_files at_home none (some 7) sealed_disk).0 (b's' ∷ []) ≡ sealed_disk (b's' ∷ [])
unfolding key_file same_bytes
load_kept_example =
    load_kept key_files at_home none (some 7) sealed_disk (b's' ∷ [])
      (λ path named. subst (λ p. not (same_bytes p home_dir) ≡ true) (ok-injective named) refl)
      sealed_there

load-load_example :
    load key_files at_home none (some 9) (put (make_dir empty_disk home_dir) (b'h' ∷ []) 7)
    ≡ (put (make_dir empty_disk home_dir) (b'h' ∷ []) 7, ok 7)
load-load_example =
    load-load key_files at_home none (some 7) (some 9) empty_disk
      (put (make_dir empty_disk home_dir) (b'h' ∷ []) 7) 7 minted_home
