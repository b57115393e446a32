-- ===== src/Tests.antt =====
-- Concrete runs of the code, and each theorem at a concrete input.
mod Text
mod Frames
mod Services
mod Streams
mod Stdin
mod Sessions
mod Rules
mod Hosts
mod Admission
mod Targets
mod Opens
mod Proofs
mod Dials
mod Forwards
mod Listings
mod Identities
mod Pumps
mod Commands
mod Disabled
mod Shipped
mod Provisions
mod Links
