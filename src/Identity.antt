-- ===== src/Identity.antt =====
-- src/identity.rs: the key that a node persists. The key file store, the directories, the random source
-- and the paths belong to the store's library, the standard library and the system: a parameter, with
-- what they document. A secret's wiping and the conversions between two libraries' keys are not
-- modelled. An error keeps its class, and the error of the store.
pub mod Kept
pub mod Lasting
use tightbeam.Base.{◌≡◌, ◌≢◌, Bool, true, false, Option, none, some, List, [], ◌∷◌, if◌then◌else◌}
use tightbeam.Base.Bytes.{Text}
use tightbeam.Base.Results.{Result, ok, err, map_err, some_or}

pub data Stored (Secret : Type 0) : Type 0 where
  plain : Secret → Stored Secret
  locked : Stored Secret

-- What a key file holds, or why it does not load: `load` never changes a disk, a `write` that fails
-- leaves every file as it was, and one that succeeds where nothing was changes nothing that was
-- elsewhere. A directory that is made changes nothing that was there, and nothing within it appears:
-- a path that ends in a name still loads as none. `adopt` writes into absence, and accepts a file that
-- holds the key.
pub record KeyStore : Type 1 where
  pub Disk : Type 0
  pub Secret : Type 0
  pub Error : Type 0
  pub not_a_file : Error → Option Text
  -- Whether a path ends in a name, and not in `..`.
  pub is_named : Text → Bool
  pub is_dir : Disk → Text → Bool
  pub parent : Text → Option Text
  pub join : Text → Text → Text
  pub load : Disk → Text → Result Error (Option (Stored Secret))
  pub write : Disk → Text → Secret → Disk × Result Error (Unit {0})
  pub adopt : Disk → Text → Secret → Disk × Result Error (Unit {0})
  pub create_dir : Disk → Text → Disk × Bool
  pub write_failed :
      (d : Disk) (p : Text) (s : Secret) (e : Error) (q : Text)
      → (write d p s).1 ≡ err e
      → load (write d p s).0 q ≡ load d q
  pub write_done :
      (d : Disk) (p : Text) (s : Secret)
      → (write d p s).1 ≡ ok tt
      → load (write d p s).0 p ≡ ok (some (plain s))
  pub write_kept :
      (d : Disk) (p : Text) (s : Secret) (q : Text)
      → load d p ≡ ok none
      → load d q ≢ ok none
      → load (write d p s).0 q ≡ load d q
  pub adopt_done :
      (d : Disk) (p : Text) (s : Secret)
      → (adopt d p s).1 ≡ ok tt
      → load (adopt d p s).0 p ≡ ok (some (plain s))
  pub adopt_kept :
      (d : Disk) (p : Text) (s : Secret) (q : Text)
      → load d q ≢ ok none
      → load (adopt d p s).0 q ≡ load d q
  pub create_dir_kept :
      (d : Disk) (p q : Text) → load d q ≢ ok none → load (create_dir d p).0 q ≡ load d q
  pub create_dir_within :
      (d : Disk) (p q : Text)
      → parent q ≡ some p
      → is_named q ≡ true
      → load d q ≡ ok none
      → load (create_dir d p).0 q ≡ ok none

-- The environment: `TIGHTBEAM_KEY` and `HOME`.
pub record Env : Type 0 where
  pub tightbeam_key : Option Text
  pub home : Option Text

abbrev pub config_word : Text
config_word = b'.' ∷ b'c' ∷ b'o' ∷ b'n' ∷ b'f' ∷ b'i' ∷ b'g' ∷ []

abbrev pub tightbeam_word : Text
tightbeam_word = b't' ∷ b'i' ∷ b'g' ∷ b'h' ∷ b't' ∷ b'b' ∷ b'e' ∷ b'a' ∷ b'm' ∷ []

abbrev pub key_word : Text
key_word = b'i' ∷ b'd' ∷ b'e' ∷ b'n' ∷ b't' ∷ b'i' ∷ b't' ∷ b'y' ∷ b'.' ∷ b'k' ∷ b'e' ∷ b'y' ∷ []

pub data IdentityError (Error : Type 0) : Type 0 where
  no_home entropy : IdentityError Error
  directory sealed create_dir_failed : Text → IdentityError Error
  key : Error → IdentityError Error

module _ (store : KeyStore) where
  open store use {Disk, Secret, Error}

  unfoldable pub default_path : Env → Result (IdentityError Error) Text
  default_path env = elim env.tightbeam_key [
    | some path ↦ ok path
    | none ↦ elim env.home [
      | none ↦ err no_home
      | some home ↦
          ok (store.join (store.join (store.join home config_word) tightbeam_word) key_word)
    ]
  ]

  unfoldable pub key_file : Env → Option Text → Result (IdentityError Error) Text
  unfolding default_path
  key_file env (some path) = ok path
  key_file env none = default_path env

  -- A directory at the key's path is the one refusal that is told apart.
  abbrev pub refusal : Disk → Error → Option Text → IdentityError Error
  refusal d e none = key e
  refusal d e (some path) = if store.is_dir d path then directory path else key e

  abbrev pub opened :
      Disk
      → Text
      → Result Error (Option (Stored Secret))
      → Result (IdentityError Error) (Option Secret)
  opened d path (ok none) = ok none
  opened d path (ok (some (plain secret))) = ok (some secret)
  opened d path (ok (some locked)) = err (sealed path)
  opened d path (err e) = err (refusal d e (store.not_a_file e))

  -- `open`, which is a reserved word here
  unfoldable pub open_key : Disk → Text → Result (IdentityError Error) (Option Secret)
  open_key d path = opened d path (store.load d path)

  abbrev pub has_text : Option Text → Option Text
  has_text none = none
  has_text (some []) = none
  has_text (some (b ∷ bs)) = some (b ∷ bs)

  abbrev pub made : Text → Disk × Bool → Disk × Result (IdentityError Error) (Unit {0})
  made parent (d, true) = (d, ok tt)
  made parent (d, false) = (d, err (create_dir_failed parent))

  abbrev pub in_parent : Disk → Option Text → Disk × Result (IdentityError Error) (Unit {0})
  in_parent d none = (d, ok tt)
  in_parent d (some parent) = made parent (store.create_dir d parent)

  unfoldable pub create_parent : Disk → Text → Disk × Result (IdentityError Error) (Unit {0})
  create_parent d path = in_parent d (has_text (store.parent path))

  abbrev pub Loaded : Type 0
  Loaded = Disk × Result (IdentityError Error) Secret

  abbrev pub saved : Secret → Disk × Result Error (Unit {0}) → Loaded
  saved secret (d, ok done) = (d, ok secret)
  saved secret (d, err e) = (d, err (key e))

  abbrev pub into_parent : Text → Secret → Disk × Result (IdentityError Error) (Unit {0}) → Loaded
  into_parent path secret (d, err e) = (d, err e)
  into_parent path secret (d, ok done) = saved secret (store.write d path secret)

  -- The one mint.
  abbrev pub minted : Disk → Text → Option Secret → Loaded
  minted d path none = (d, err entropy)
  minted d path (some secret) = into_parent path secret (create_parent d path)

  abbrev pub or_minted :
      Disk → Text → Option Secret → Result (IdentityError Error) (Option Secret) → Loaded
  or_minted d path generated (err e) = (d, err e)
  or_minted d path generated (ok (some secret)) = (d, ok secret)
  or_minted d path generated (ok none) = minted d path generated

  abbrev pub at_path : Disk → Option Secret → Result (IdentityError Error) Text → Loaded
  at_path d generated (err e) = (d, err e)
  at_path d generated (ok path) = or_minted d path generated (open_key d path)

  -- `load`; `generated` is what the random source gives, if it is asked.
  unfoldable pub load : Env → Option Text → Option Secret → Disk → Loaded
  unfolding key_file open_key create_parent
  load env explicit generated d = at_path d generated (key_file env explicit)

  abbrev pub Written : Type 0
  Written = Disk × Result (IdentityError Error) (Unit {0})

  abbrev pub adopted : Disk × Result Error (Unit {0}) → Written
  adopted (d, ok done) = (d, ok tt)
  adopted (d, err e) = (d, err (key e))

  abbrev pub adopt_into : Text → Secret → Disk × Result (IdentityError Error) (Unit {0}) → Written
  adopt_into path secret (d, err e) = (d, err e)
  adopt_into path secret (d, ok done) = adopted (store.adopt d path secret)

  abbrev pub write_at : Disk → Secret → Result (IdentityError Error) Text → Written
  write_at d secret (err e) = (d, err e)
  write_at d secret (ok path) = adopt_into path secret (create_parent d path)

  unfoldable pub write : Env → Option Text → Secret → Disk → Written
  unfolding key_file create_parent
  write env explicit secret d = write_at d secret (key_file env explicit)
