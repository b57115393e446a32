-- ===== src/Dispatch/Returned.antt =====
-- What a stream that is not served leaves behind.
use tightbeam.Base.{◌+◌, ◌≡◌, ◌≢◌, Option}
use tightbeam.Cut.{AdmittedChains}
use tightbeam.Protocol.Frames.{Details}
use tightbeam.Permits.{Semaphores, Permit}
use tightbeam.Permits.Counts.{bit, free}
use tightbeam.Gate.{Gates}
use tightbeam.Admit.{AdmittedStream, Slots}
use tightbeam.Dispatch.{Ready, served, Stream}

module _ (gates : Gates) (semaphores : Semaphores) (api : Details) where
  open semaphores use {available}

  -- A stream is over, and holds nothing.
  pub record Returned (chains : Option AdmittedChains) (slots : Slots gates semaphores)
      (stream : Stream gates semaphores api) : Type 0 where
    pub same_chains : stream.chains ≡ chains
    pub streams :
        (p : Permit) → free semaphores (stream.slots.pools) p ≡ free semaphores (slots.pools) p
    pub sessions :
        available stream.slots.pools.sessions + bit stream.slots.held
        ≡ available slots.pools.sessions + bit slots.held

  Ends : Stream gates semaphores api → Type 0
  Ends stream =
      (admitted : AdmittedStream gates semaphores) (ready : Ready gates semaphores api)
      → stream.outcome ≢ served admitted ready
