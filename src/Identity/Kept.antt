-- ===== src/Identity/Kept.antt =====
-- A key that is on the disk stays, and a key that was minted is the key from then on.
use tightbeam.Base.{◌≡◌, ◌≢◌, refl, sym, ap, ◌∙◌, Bool, true, false, Option, none, some, [], ◌∷◌}
use tightbeam.Base.Bytes.{Text}
use tightbeam.Base.Results.{Result, ok, err}
use tightbeam.Identity.{
  Stored, plain, locked, KeyStore, Env, IdentityError, key_file, opened, open_key, has_text, made,
  in_parent, create_parent, saved, into_parent, minted, or_minted, at_path, load,
}

module _ (store : KeyStore) where
  open store use {Disk, Secret, Error}

  made_disk : (parent : Text) (made_dir : Disk × Bool) → (made store parent made_dir).0 ≡ made_dir.0
  made_disk parent (d, true) = refl
  made_disk parent (d, false) = refl

  -- The parent of a path is created without a change to what is there.
  pub create_parent-load :
      (d : Disk) (path q : Text)
      → store.load d q ≢ ok none
      → store.load (create_parent store d path).0 q ≡ store.load d q
  unfolding create_parent
  create_parent-load d path q present = by_parent (has_text store (store.parent path))
    where
      by_parent : (o : Option Text) → store.load (in_parent store d o).0 q ≡ store.load d q
      by_parent none = refl
      by_parent (some parent) =
          ap (λ x. store.load x q) (made_disk parent (store.create_dir d parent))
          ∙ store.create_dir_kept d parent q present

  has_text-some : (o : Option Text) {p : Text} → has_text store o ≡ some p → o ≡ some p
  has_text-some none h = absurd cc
  has_text-some (some []) h = absurd cc
  has_text-some (some (b ∷ bs)) h = h

  -- And nothing appears at the path itself.
  create_parent-none :
      (d : Disk) (path : Text)
      → store.is_named path ≡ true
      → store.load d path ≡ ok none
      → store.load (create_parent store d path).0 path ≡ ok none
  unfolding create_parent
  create_parent-none d path named absent = by_parent (has_text store (store.parent path)) refl
    where
      by_parent :
          (o : Option Text)
          → has_text store (store.parent path) ≡ o
          → store.load (in_parent store d o).0 path ≡ ok none
      by_parent none is = absent
      by_parent (some parent) is =
          ap (λ x. store.load x path) (made_disk parent (store.create_dir d parent))
          ∙ store.create_dir_within d parent path (has_text-some (store.parent path) is) named
              absent

  -- Only an absent file opens as none.
  opened-none :
      (d : Disk) (path : Text) (r : Result Error (Option (Stored Secret)))
      → opened store d path r ≡ ok none
      → r ≡ ok none
  opened-none d path (ok none) h = refl
  opened-none d path (ok (some (plain s))) h = absurd cc
  opened-none d path (ok (some locked)) h = absurd cc
  opened-none d path (err e) h = absurd (cc h)

  pub opened-some :
      (d : Disk) (path : Text) (r : Result Error (Option (Stored Secret))) {s : Secret}
      → opened store d path r ≡ ok (some s)
      → r ≡ ok (some (plain s))
  opened-some d path (ok none) h = absurd cc
  opened-some d path (ok (some (plain s))) h = cc h
  opened-some d path (ok (some locked)) h = absurd cc
  opened-some d path (err e) h = absurd (cc h)

  saved_disk : (s : Secret) (w : Disk × Result Error (Unit {0})) → (saved store s w).0 ≡ w.0
  saved_disk s (d, ok done) = refl
  saved_disk s (d, err e) = refl

  into_parent_kept :
      (d : Disk) (path q : Text) (s : Secret) (p : Disk × Result (IdentityError Error) (Unit {0}))
      → store.load p.0 path ≡ ok none
      → store.load p.0 q ≡ store.load d q
      → store.load d q ≢ ok none
      → store.load (into_parent store path s p).0 q ≡ store.load d q
  into_parent_kept d path q s (d', err e) absent same present = same
  into_parent_kept d path q s (d', ok done) absent same present =
      ap (λ x. store.load x q) (saved_disk s (store.write d' path s))
      ∙ (store.write_kept d' path s q absent (λ e. present (sym same ∙ e)) ∙ same)

  minted_kept :
      (d : Disk) (path q : Text) (generated : Option Secret)
      → store.is_named path ≡ true
      → store.load d path ≡ ok none
      → store.load d q ≢ ok none
      → store.load (minted store d path generated).0 q ≡ store.load d q
  minted_kept d path q none named absent present = refl
  minted_kept d path q (some s) named absent present =
      into_parent_kept d path q s (create_parent store d path)
        (create_parent-none d path named absent) (create_parent-load d path q present) present

  or_minted_kept :
      (d : Disk) (path q : Text) (generated : Option Secret)
      (o : Result (IdentityError Error) (Option Secret))
      → store.is_named path ≡ true
      → open_key store d path ≡ o
      → store.load d q ≢ ok none
      → store.load (or_minted store d path generated o).0 q ≡ store.load d q
  unfolding open_key
  or_minted_kept d path q generated (err e) named found present = refl
  or_minted_kept d path q generated (ok (some s)) named found present = refl
  or_minted_kept d path q generated (ok none) named found present =
      minted_kept d path q generated named (opened-none d path (store.load d path) found) present

  -- A load never replaces a key file. Whatever is at a path of the disk, a key, a sealed key or something
  -- that does not load, is there unchanged after a load of any identity whose path ends in a name,
  -- however the load ends.
  pub load_kept :
      (env : Env) (explicit : Option Text) (generated : Option Secret) (d : Disk) (q : Text)
      → ((path : Text) → key_file store env explicit ≡ ok path → store.is_named path ≡ true)
      → store.load d q ≢ ok none
      → store.load (load store env explicit generated d).0 q ≡ store.load d q
  unfolding load
  load_kept env explicit generated d q named present = at (key_file store env explicit) refl
    where
      at :
          (r : Result (IdentityError Error) Text)
          → key_file store env explicit ≡ r
          → store.load (at_path store d generated r).0 q ≡ store.load d q
      at (err e) is = refl
      at (ok path) is =
          or_minted_kept d path q generated (open_key store d path) (named path is) refl present
