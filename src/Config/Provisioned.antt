-- ===== src/Config/Provisioned.antt =====
-- The root of src/config.rs, written and loaded.
use tightbeam.Base.{ℕ, ◌≡◌, refl, sym, ap, ◌∙◌, Bool, true, false, some, [], ◌∷◌, ◌++◌}
use tightbeam.Base.Bytes.{Text}
use tightbeam.Base.Results.{Result, ok, err, ◌>>=◌}
use tightbeam.Config.{
  Files, Vars, ConfigError, root_path, found_root, load_root, written, then_write, in_dir, write_to,
  write_root,
}

module _ (files : Files) where
  open files use {Disk}

  written-found :
      (path : Text) (root : ℕ) (made : Disk × Bool) (d' : Disk)
      → then_write files path root made ≡ (d', ok tt)
      → found_root files (files.read d' path) ≡ ok (some root)
  written-found path root (d, false) d' h = absurd (cc h)
  written-found path root (d, true) d' h =
      by_write (files.write d path (files.show root ++ b'\n' ∷ [])) refl h
    where
      by_write :
          (w : Disk × Bool)
          → files.write d path (files.show root ++ b'\n' ∷ []) ≡ w
          → written files w ≡ (d', ok tt)
          → found_root files (files.read d' path) ≡ ok (some root)
      by_write (d2, false) is h' = absurd (cc h')
      by_write (d2, true) is h' =
          let e : d2 ≡ d' = ap (λ x. x.0) h' in
          ap (λ x. found_root files (files.read x path)) (sym (ap (λ x. x.0) is ∙ e))
          ∙ (ap (found_root files) (files.write_done d path _ (ap (λ x. x.1) is))
              ∙ rw (files.shown root) refl)

  -- The root that was written is the one that is loaded, whatever was at its path before.
  pub write_root-load_root :
      (vars : Vars) (root : ℕ) (d d' : Disk)
      → write_root files vars root d ≡ (d', ok tt)
      → load_root files vars d' ≡ ok (some root)
  unfolding write_root load_root
  write_root-load_root vars root d d' h = at (root_path files vars) h
    where
      at :
          (r : Result ConfigError Text)
          → write_to files d root r ≡ (d', ok tt)
          → (r >>= λ path. found_root files (files.read d' path)) ≡ ok (some root)
      at (err e) h' = absurd (cc h')
      at (ok path) h' = written-found path root (in_dir files d (files.parent path)) d' h'
