-- ===== src/Config.antt =====
-- src/config.rs: where the files of a user are, and the root that a node trusts. The files are the
-- system's, the text of a key the transport library's, and `trim` the standard library's: a parameter,
-- with what they document. A failure keeps its class.
pub mod Provisioned
use tightbeam.Base.{ℕ, ◌≡◌, ◌≢◌, Bool, true, false, Option, none, some, List, [], ◌∷◌, ◌++◌}
use tightbeam.Base.Bytes.{Text}
use tightbeam.Base.Results.{Result, ok, err, ◌>>=◌, some_or}
use tightbeam.Identity.{config_word, tightbeam_word}

-- What a read of a file finds.
pub data Found : Type 0 where
  text : Text → Found
  missing unreadable : Found

-- A write that succeeds is what is read, and a directory that is made changes no file.
pub record Files : Type 1 where
  pub Disk : Type 0
  pub parent : Text → Option Text
  pub join : Text → Text → Text
  pub read : Disk → Text → Found
  pub write : Disk → Text → Text → Disk × Bool
  pub create_dir_all : Disk → Text → Disk × Bool
  pub trim : Text → Text
  pub parse : Text → Option ℕ
  pub show : ℕ → Text
  pub write_done :
      (d : Disk) (p t : Text) → (write d p t).1 ≡ true → read (write d p t).0 p ≡ text t
  pub shown : (node : ℕ) → parse (trim (show node ++ b'\n' ∷ [])) ≡ some node

-- `TIGHTBEAM_ROOT`, `TIGHTBEAM_REVOKED` and `HOME`
pub record Vars : Type 0 where
  pub tightbeam_root : Option Text
  pub tightbeam_revoked : Option Text
  pub home : Option Text

pub data ConfigError : Type 0 where
  no_home bad_root unreadable_root unwritten : ConfigError

abbrev pub root_word : Text
root_word = b'r' ∷ b'o' ∷ b'o' ∷ b't' ∷ []

abbrev pub revoked_word : Text
revoked_word = b'r' ∷ b'e' ∷ b'v' ∷ b'o' ∷ b'k' ∷ b'e' ∷ b'd' ∷ []

module _ (files : Files) where
  open files use {Disk, join}

  unfoldable pub config_dir : Vars → Result ConfigError Text
  config_dir vars =
      some_or no_home vars.home >>= λ home. ok (join (join home config_word) tightbeam_word)

  abbrev pub or_in_config : Option Text → Text → Vars → Result ConfigError Text
  or_in_config (some path) word vars = ok path
  or_in_config none word vars = config_dir vars >>= λ dir. ok (join dir word)

  unfoldable pub root_path : Vars → Result ConfigError Text
  unfolding config_dir
  root_path vars = or_in_config vars.tightbeam_root root_word vars

  unfoldable pub revoked_path : Vars → Result ConfigError Text
  unfolding config_dir
  revoked_path vars = or_in_config vars.tightbeam_revoked revoked_word vars

  abbrev pub found_root : Found → Result ConfigError (Option ℕ)
  found_root (text t) = some_or bad_root (files.parse (files.trim t)) >>= λ node. ok (some node)
  found_root missing = ok none
  found_root unreadable = err unreadable_root

  unfoldable pub load_root : Vars → Disk → Result ConfigError (Option ℕ)
  unfolding root_path
  load_root vars d = root_path vars >>= λ path. found_root (files.read d path)

  abbrev pub Written : Type 0
  Written = Disk × Result ConfigError (Unit {0})

  abbrev pub written : Disk × Bool → Written
  written (d, true) = (d, ok tt)
  written (d, false) = (d, err unwritten)

  abbrev pub then_write : Text → ℕ → Disk × Bool → Written
  then_write path root (d, false) = (d, err unwritten)
  then_write path root (d, true) = written (files.write d path (files.show root ++ b'\n' ∷ []))

  abbrev pub in_dir : Disk → Option Text → Disk × Bool
  in_dir d none = (d, true)
  in_dir d (some parent) = files.create_dir_all d parent

  abbrev pub write_to : Disk → ℕ → Result ConfigError Text → Written
  write_to d root (err e) = (d, err e)
  write_to d root (ok path) = then_write path root (in_dir d (files.parent path))

  unfoldable pub write_root : Vars → ℕ → Disk → Written
  unfolding root_path
  write_root vars root d = write_to d root (root_path vars)
