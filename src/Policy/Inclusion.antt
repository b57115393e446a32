-- ===== src/Policy/Inclusion.antt =====
-- The conversions against what each marker accepts.
use tightbeam.Base.{◌≡◌, refl, Bool, not, ◌&&◌, ◌||◌}
use tightbeam.Policy.{
  Origin, rooted, opened, proven, PublicUse, never, opt_in, proven_only, open_safe, accepts,
  compatible,
}

-- Whether what the outer accepts from an origin the inner does.
abbrev pub carries : PublicUse → PublicUse → Origin → Bool
carries outer inner origin = not (accepts outer origin) || accepts inner origin

-- A handler may hand its proof to another exactly when the other accepts every origin that it accepts
-- itself; a marker is safe to open exactly when it accepts a stranger; and only a proven-only handler
-- accepts a proven key.
compatible-carries :
    (outer inner : PublicUse)
    → (compatible outer inner
        ≡ carries outer inner rooted && carries outer inner opened && carries outer inner proven)
      × (open_safe outer ≡ accepts outer opened)
      × (accepts outer proven ≡ not (accepts outer rooted))
unfolding compatible accepts open_safe
compatible-carries never never = (refl, refl, refl)
compatible-carries never opt_in = (refl, refl, refl)
compatible-carries never proven_only = (refl, refl, refl)
compatible-carries opt_in never = (refl, refl, refl)
compatible-carries opt_in opt_in = (refl, refl, refl)
compatible-carries opt_in proven_only = (refl, refl, refl)
compatible-carries proven_only never = (refl, refl, refl)
compatible-carries proven_only opt_in = (refl, refl, refl)
compatible-carries proven_only proven_only = (refl, refl, refl)
