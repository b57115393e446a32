-- ===== src/Sources/Guards.antt =====
-- The check at serving time and the guard of the open.
use tightbeam.Base.{◌≡◌, refl, ◌↔◌, ◌⊎◌, inl, inr, none, some, any, ◌==◌, Bool-cases}
use tightbeam.Base.Bytes.{Text}
use tightbeam.Base.Results.{ok, step_ok}
use tightbeam.Sources.{
  Kind, file, fifo, FileType, block_device, char_device, directory, symlink, socket, pipe, regular,
  unknown, admits, found, check_open_path, OpenCall, eloop, other_error, descriptor, Guarded,
  guard_call, open_guarded, Wait, open_path,
}

-- What the kernel answers for an object of a type: `O_NOFOLLOW` refuses a symlink, and a descriptor is
-- one of the object itself.
pub data Answers : FileType → OpenCall → Type 0 where
  no_follow : Answers symlink eloop
  fails : {type : FileType} → Answers type other_error
  unread : {type : FileType} → Answers type (descriptor none)
  itself : {type : FileType} → Answers type (descriptor (some type))

-- What may be read as a stream of bytes, by the kind of the target.
abbrev pub IsSource : Kind → FileType → Type 0
IsSource file type = (type ≡ regular) ⊎ (type ≡ pipe)
IsSource fifo type = type ≡ pipe

admits-IsSource : (kind : Kind) (type : FileType) → admits kind type ≡ ok tt → IsSource kind type
admits-IsSource file regular h = inl refl
admits-IsSource file pipe h = inr refl
admits-IsSource file block_device h = absurd cc
admits-IsSource file char_device h = absurd cc
admits-IsSource file directory h = absurd cc
admits-IsSource file symlink h = absurd cc
admits-IsSource file socket h = absurd cc
admits-IsSource file unknown h = absurd cc
admits-IsSource fifo pipe h = refl
admits-IsSource fifo regular h = absurd cc
admits-IsSource fifo block_device h = absurd cc
admits-IsSource fifo char_device h = absurd cc
admits-IsSource fifo directory h = absurd cc
admits-IsSource fifo symlink h = absurd cc
admits-IsSource fifo socket h = absurd cc
admits-IsSource fifo unknown h = absurd cc

check-IsSource :
    (kind : Kind) (type : FileType) → check_open_path (found type) kind ≡ ok tt → IsSource kind type
unfolding check_open_path
check-IsSource kind regular h = admits-IsSource kind regular h
check-IsSource kind pipe h = admits-IsSource kind pipe h
check-IsSource kind block_device h = admits-IsSource kind block_device h
check-IsSource kind char_device h = admits-IsSource kind char_device h
check-IsSource kind directory h = admits-IsSource kind directory h
check-IsSource kind symlink h = absurd cc
check-IsSource kind socket h = admits-IsSource kind socket h
check-IsSource kind unknown h = admits-IsSource kind unknown h

IsSource-check :
    (kind : Kind) (type : FileType) → IsSource kind type → check_open_path (found type) kind ≡ ok tt
unfolding check_open_path
IsSource-check file type (inl e) = rw (e, check_open_path) refl
IsSource-check file type (inr e) = rw (e, check_open_path) refl
IsSource-check fifo type e = rw (e, check_open_path) refl

guard_call-IsSource :
    (kind : Kind) (type : FileType) (call : OpenCall) (g : Guarded)
    → Answers type call
    → guard_call kind call ≡ ok g
    → IsSource kind type
guard_call-IsSource kind type eloop g no_follow h = absurd cc
guard_call-IsSource kind type other_error g fails h = absurd cc
guard_call-IsSource kind type (descriptor none) g unread h = absurd cc
guard_call-IsSource kind type (descriptor (some found_type)) g itself h =
    step_ok (admits kind type) _ h (λ u e e'. admits-IsSource kind type e)

-- The check before a source is announced accepts what exists exactly when it is a regular file or a
-- FIFO behind `file:`, or a FIFO behind `fifo:`; and nothing else ever opens as a stream, whatever the
-- open, the wait for a writer and the path are.
pub open_path-IsSource :
    (path : Text) (kind : Kind) (type : FileType) (call : OpenCall) (wait : Wait)
    → Answers type call
    → ((check_open_path (found type) kind ≡ ok tt) ↔ IsSource kind type)
      × ((g : Guarded) → open_path path kind call wait ≡ ok g → IsSource kind type)
unfolding open_path open_guarded
open_path-IsSource path kind type call wait answers = (
  (check-IsSource kind type, IsSource-check kind type),
  λ g h. step_ok (open_guarded path kind call) _ h (λ opened e e'.
      elim (Bool-cases (any (λ b. b == 0) path)) [
        | inl nul ↦ absurd (cc (rw (nul, open_guarded) at e))
        | inr clean ↦
            guard_call-IsSource kind type call opened answers (rw (clean, open_guarded) at e)
      ]),
)
