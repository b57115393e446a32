-- ===== src/Identity/Lasting.antt =====
-- A key that was loaded or written is the key from then on.
use tightbeam.Base.{◌≡◌, ◌≢◌, refl, sym, ap, ◌∙◌, Option, none, some}
use tightbeam.Base.Bytes.{Text}
use tightbeam.Base.Results.{Result, ok, err, ok-injective}
use tightbeam.Identity.{
  plain, KeyStore, Env, IdentityError, key_file, open_key, create_parent, saved, into_parent,
  or_minted, at_path, load, adopted, adopt_into, write_at, write,
}
use tightbeam.Identity.Kept.{opened-some, create_parent-load}

module _ (store : KeyStore) where
  open store use {Disk, Secret, Error}

  saved-holds :
      (d d' : Disk) (path : Text) (s t : Secret)
      → saved store s (store.write d path s) ≡ (d', ok t)
      → (store.load d' path ≡ ok (some (plain t)))
  saved-holds d d' path s t h = by_write (store.write d path s) refl h
    where
      by_write :
          (w : Disk × Result Error (Unit {0}))
          → store.write d path s ≡ w
          → saved store s w ≡ (d', ok t)
          → store.load d' path ≡ ok (some (plain t))
      by_write (d1, err e) is h' = absurd (cc h')
      by_write (d1, ok tt) is h' =
          let e : d1 ≡ d' = ap (λ x. x.0) h' in
          let e' : s ≡ t = ok-injective (ap (λ x. x.1) h') in
          ap (λ x. store.load x path) (sym (ap (λ x. x.0) is ∙ e))
          ∙ (store.write_done d path s (ap (λ x. x.1) is) ∙ ap (λ x. ok (some (plain x))) e')

  into_parent-holds :
      (d' : Disk) (path : Text) (s t : Secret) (p : Disk × Result (IdentityError Error) (Unit {0}))
      → into_parent store path s p ≡ (d', ok t)
      → store.load d' path ≡ ok (some (plain t))
  into_parent-holds d' path s t (d1, err e) h = absurd (cc h)
  into_parent-holds d' path s t (d1, ok done) h = saved-holds d1 d' path s t h

  or_minted-holds :
      (d d' : Disk) (path : Text) (generated : Option Secret) (t : Secret)
      (o : Result (IdentityError Error) (Option Secret))
      → open_key store d path ≡ o
      → or_minted store d path generated o ≡ (d', ok t)
      → store.load d' path ≡ ok (some (plain t))
  unfolding open_key
  or_minted-holds d d' path generated t (err e) found h = absurd (cc h)
  or_minted-holds d d' path generated t (ok (some s)) found h =
      let e : d ≡ d' = ap (λ x. x.0) h in
      let e' : s ≡ t = ok-injective (ap (λ x. x.1) h) in
      rw (← e, ← e') (opened-some store d path (store.load d path) found)
  or_minted-holds d d' path none t (ok none) found h = absurd (cc h)
  or_minted-holds d d' path (some s) t (ok none) found h =
      into_parent-holds d' path s t (create_parent store d path) h

  -- A file that holds a key is loaded as it is.
  held :
      (d : Disk) (path : Text) (generated : Option Secret) (t : Secret)
      → store.load d path ≡ ok (some (plain t))
      → or_minted store d path generated (open_key store d path) ≡ (d, ok t)
  unfolding open_key
  held d path generated t h = rw (h) refl

  -- An identity is stable. Once a load of a path has given a key, whether the file held it or it was
  -- minted, every later load of the path gives that key and changes nothing, whatever the random source
  -- would give then.
  pub load-load :
      (env : Env) (explicit : Option Text) (generated later : Option Secret) (d d' : Disk)
      (t : Secret)
      → load store env explicit generated d ≡ (d', ok t)
      → load store env explicit later d' ≡ (d', ok t)
  unfolding load
  load-load env explicit generated later d d' t h = at (key_file store env explicit) h
    where
      at :
          (r : Result (IdentityError Error) Text)
          → at_path store d generated r ≡ (d', ok t)
          → at_path store d' later r ≡ (d', ok t)
      at (err e) h' = absurd (cc h')
      at (ok path) h' =
          held d' path later t
            (or_minted-holds d d' path generated t (open_key store d path) refl h')

  adopted-holds :
      (d1 d' : Disk) (path : Text) (s : Secret)
      → adopted store (store.adopt d1 path s) ≡ (d', ok tt)
      → (store.load d' path ≡ ok (some (plain s))) × (store.adopt d1 path s ≡ (d', ok tt))
  adopted-holds d1 d' path s h = by_adopt (store.adopt d1 path s) refl h
    where
      by_adopt :
          (w : Disk × Result Error (Unit {0}))
          → store.adopt d1 path s ≡ w
          → adopted store w ≡ (d', ok tt)
          → (store.load d' path ≡ ok (some (plain s))) × (store.adopt d1 path s ≡ (d', ok tt))
      by_adopt (d2, err e) is h' = absurd (cc h')
      by_adopt (d2, ok done) is h' =
          let e : d2 ≡ d' = ap (λ x. x.0) h' in
          (
            ap (λ x. store.load x path) (sym (ap (λ x. x.0) is ∙ e))
                ∙ store.adopt_done d1 path s (ap (λ x. x.1) is),
            is ∙ ap (λ x. (x, ok tt)) e,
          )

  written-loads :
      (d d' : Disk) (path : Text) (secret : Secret) (later : Option Secret)
      → write_at store d secret (ok path) ≡ (d', ok tt)
      → (at_path store d' later (ok path) ≡ (d', ok secret))
        × ((old : Secret) → store.load d path ≡ ok (some (plain old)) → old ≡ secret)
  written-loads d d' path secret later h =
      by_parent (create_parent store d path) (create_parent-load store d path path) h
    where
      by_parent :
          (p : Disk × Result (IdentityError Error) (Unit {0}))
          → (store.load d path ≢ ok none → store.load p.0 path ≡ store.load d path)
          → adopt_into store path secret p ≡ (d', ok tt)
          → (at_path store d' later (ok path) ≡ (d', ok secret))
            × ((old : Secret) → store.load d path ≡ ok (some (plain old)) → old ≡ secret)
      by_parent (d1, err e) same h' = absurd (cc h')
      by_parent (d1, ok done) same h' =
          let (holds, is) = adopted-holds d1 d' path secret h' in
          (
            held d' path later secret holds,
            λ old found.
                let before : store.load d1 path ≡ ok (some (plain old)) =
                  same (λ gone. absurd (cc (gone, found))) ∙ found in
                let kept : store.load (store.adopt d1 path secret).0 path ≡ store.load d1 path =
                  store.adopt_kept d1 path secret path (λ none_there. absurd cc) in
                let there : store.load (store.adopt d1 path secret).0 path ≡ store.load d' path =
                  ap (λ x. store.load x.0 path) is in
                cc,
          )

  -- What a write persists is what a load gives back, and a write replaces no key: where the file held
  -- a key already, it was that key.
  pub write-load :
      (env : Env) (explicit : Option Text) (secret : Secret) (later : Option Secret) (d d' : Disk)
      → write store env explicit secret d ≡ (d', ok tt)
      → (load store env explicit later d' ≡ (d', ok secret))
        × ((path : Text) (old : Secret)
            → key_file store env explicit ≡ ok path
            → store.load d path ≡ ok (some (plain old))
            → old ≡ secret)
  unfolding load write
  write-load env explicit secret later d d' h = at (key_file store env explicit) h
    where
      at :
          (r : Result (IdentityError Error) Text)
          → write_at store d secret r ≡ (d', ok tt)
          → (at_path store d' later r ≡ (d', ok secret))
            × ((path : Text) (old : Secret)
                → r ≡ ok path
                → store.load d path ≡ ok (some (plain old))
                → old ≡ secret)
      at (err e) h' = absurd (cc h')
      at (ok path) h' =
          let (loads, same) = written-loads d d' path secret later h' in
          (loads, λ named old is found. same old (ap (store.load d) (ok-injective is) ∙ found))
