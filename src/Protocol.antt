-- ===== src/Protocol.antt =====
-- src/protocol.rs: the preamble of a stream. `Frames` holds the length-prefixed strings and the
-- magic, `Request` the opening frame of a connector, `Response` the reply of the host.
pub mod Frames
pub mod Request
pub mod Response
