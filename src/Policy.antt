-- ===== src/Policy.antt =====
-- tightbeam-handler/src/open_policy.rs: the three markers that a handler declares. `Origin` is the
-- gate library's; the source matches each of its constructors. `Open` is a reserved word here.
pub mod Inclusion
use tightbeam.Base.{Bool, true, false}

pub data Origin : Type 0 where
  rooted opened proven : Origin

pub data PublicUse : Type 0 where
  never opt_in proven_only : PublicUse

unfoldable pub open_safe : PublicUse → Bool
open_safe never = false
open_safe opt_in = true
open_safe proven_only = false

unfoldable pub accepts : PublicUse → Origin → Bool
accepts never rooted = true
accepts never opened = false
accepts never proven = false
accepts opt_in rooted = true
accepts opt_in opened = true
accepts opt_in proven = false
accepts proven_only proven = true
accepts proven_only rooted = false
accepts proven_only opened = false

-- `Compatible<Inner> for Outer`: every marker with itself, and `OptIn` inside `Never`.
unfoldable pub compatible : PublicUse → PublicUse → Bool
compatible never never = true
compatible never opt_in = true
compatible never proven_only = false
compatible opt_in opt_in = true
compatible opt_in never = false
compatible opt_in proven_only = false
compatible proven_only proven_only = true
compatible proven_only never = false
compatible proven_only opt_in = false
