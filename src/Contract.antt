-- ===== src/Contract.antt =====
-- tightbeam-handler/src/contract.rs: the proof that a handler serves a stream with. A handler's type
-- is here the marker that it declares, which is all that a proof reads of it, and the bound on a
-- conversion is an argument of the conversion.
pub mod Delegation
use tightbeam.Base.{◌≡◌, not, true, Bool, false, if◌then◌else◌}
use tightbeam.Base.Results.{Result, ok, err, map_err}
use tightbeam.Policy.{Origin, rooted, opened, proven, PublicUse, accepts, compatible}
use tightbeam.Protocol.Frames.{Refusal, not_admitted}
use tightbeam.Gate.{Gates}

-- `io::Error` is the standard library's.
pub data ServeError (D Failure : Type 0) : Type 0 where
  refused : Refusal D → ServeError D Failure
  open_admission : ServeError D Failure
  io : Failure → ServeError D Failure

abbrev pub is_rooted : Origin → Bool
is_rooted rooted = true
is_rooted opened = false
is_rooted proven = false

module _ (gates : Gates) where
  -- `Served<H>`
  pub record Served (exposure : PublicUse) : Type 0 where
    pub admitted : gates.Admitted

  pub record RootedAdmitted : Type 0 where
    pub admitted : gates.Admitted

module _ (gates : Gates) (D : Type 0) where
  unfoldable pub mint :
      (exposure : PublicUse) → gates.Admitted → Result (Refusal D) (Served gates exposure)
  mint exposure admitted =
      if not (accepts exposure (gates.origin admitted))
      then err not_admitted
      else ok (record { admitted = admitted })

module _ (gates : Gates) (D Failure : Type 0) where
  unfoldable pub into_rooted :
      {exposure : PublicUse}
      → Served gates exposure
      → Result (ServeError D Failure) (RootedAdmitted gates)
  into_rooted served =
      if not (is_rooted (gates.origin served.admitted))
      then err open_admission
      else ok (record { admitted = served.admitted })

  unfoldable pub delegate :
      {outer inner : PublicUse}
      → Served gates outer
      → compatible outer inner ≡ true
      → Result (ServeError D Failure) (Served gates inner)
  delegate {outer} {inner} served bound = map_err refused (mint gates D inner served.admitted)
