-- ===== src/Tests/Proofs.antt =====
-- Proofs of serving that are handed inward.
use tightbeam.Base.{◌≡◌, refl, Bool, true}
use tightbeam.Base.Results.{err}
use tightbeam.Policy.{Origin, rooted, opened, proven, never, opt_in, accepts, compatible}
use tightbeam.Protocol.Frames.{not_admitted}
use tightbeam.Contract.{mint, into_rooted, delegate, open_admission}
use tightbeam.Contract.Delegation.{Handed, prepared, inward, Backed, Handed-Backed}
use tightbeam.Tests.Hosts.{Witness, small_gates}

abbrev of_origin : Origin → Witness
of_origin origin = record { origin = origin; member = true; key = 5 }

-- A shell's proof, handed to a download.
shell_to_download :
    Handed small_gates Bool Bool (of_origin rooted) opt_in (record { admitted = of_origin rooted })
unfolding mint delegate accepts compatible
shell_to_download =
    inward {outer = never} {served = record { admitted = of_origin rooted }} refl (prepared refl)
      refl

Handed-Backed_example :
    Backed small_gates Bool Bool (of_origin rooted) opt_in (record { admitted = of_origin rooted })
Handed-Backed_example = Handed-Backed small_gates Bool Bool shell_to_download

stranger_at_shell : mint small_gates Bool never (of_origin opened) ≡ err not_admitted
unfolding mint accepts
stranger_at_shell = refl

proven_not_rooted :
    into_rooted small_gates Bool Bool {exposure = opt_in} (record { admitted = of_origin proven })
    ≡ err open_admission
unfolding into_rooted
proven_not_rooted = refl
