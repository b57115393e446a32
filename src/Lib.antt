-- ===== src/Lib.antt =====
-- Tightbeam serves local services to peers over an authenticated transport. A connector opens a
-- stream with a Request frame, the host answers with a Response frame, and the stream then carries
-- the service's own bytes. This library models the parts that hold the program's own rules.
--
-- * Protocol (`src/protocol.rs`): both frames, their fields and refusals, in Protocol/Frames,
--   Protocol/Request and Protocol/Response; the laws stand in the modules below them. `Security`
--   (`src/security.rs`) is the one test that lets a credential move.
-- * Catalog (`src/tunnel/catalog.rs`): the list of services and its wire form.
-- * Wire (`tightbeam-handler/src/wire.rs`): `read_frame` and `write_frame` for any codec.
-- * Lifetime (`src/duration.rs`): the text of a capability's lifetime.
-- * Fanout (`src/raw_stream_fanout.rs`): the shared ring, its cursors and the pump. Each function is
--   one critical section; Fanout/Session is the relation of their interleavings.
-- * Seat (`src/raw_stream/seat.rs`): standard input, lent to one peer at a time. Seat/Meter is the
--   stall gauge, and Seat/Conserved the transitions of the cell together with the guard.
-- * Cut (`src/tunnel/cut.rs`): what a session was admitted on, its lease, and the ruling of a sweep.
-- * Router (`src/tunnel/router.rs`, and `Exposer::prove` of `src/tunnel/exposer.rs`): the route table,
--   the overlays that open routes to anyone, and the interlocks that an exposer is constructed under.
--   Router/Build is the chain of verbs of `Router`, Router/Listing the catalog and the manifest.
-- * Policy (`tightbeam-handler/src/open_policy.rs`): the markers of a handler. The router reads them.
-- * Contract (`tightbeam-handler/src/contract.rs`): the serving proof of a handler, over Policy and Gate.
-- * Enabled (`src/enabled.rs`): the list of disabled services behind a file. Enabled/Decode is the file.
-- * Grammar (`src/tunnel/router.rs`, the constructors of `src/raw_stream.rs`): `name=target` entries.
-- * Sources (`src/raw_stream.rs`, `src/raw_stream/guarded.rs`): the guards of a path and the lossy
--   source, over Fanout.
-- * Permits (`src/tunnel/exposer.rs`): the permit pools. Gate (`src/tunnel/admit.rs`): the base gate, what
--   a host can refuse for, and what the dialer is told.
-- * Admit (`src/tunnel/admit.rs`): `admit`, over Router, Gate and Permits.
-- * Dispatch (`src/tunnel/admit.rs`): `serve_request`, over Protocol, Admit, Router, Contract and Cut.
-- * Session (`src/tunnel/exposer.rs`): `serve_session` and the loop of `run` as steps, over Admit.
-- * Connector (`src/tunnel/connector.rs`): the request, the credentials and the handshake of a dial;
--   Connector/Exchange joins it to Dispatch over the bytes of both frames, and Connector/Presenting is the
--   connector that always presents a link.
-- * Forward (`src/tunnel/connector.rs`): `PortForward::run` as its turns, with the preflight; over Connector.
-- * Pump (`src/lib.rs`): the splice of two streams. Bridge: a service piped over the standard streams, its
--   turns with those of the one thread that reads stdin; any number of bridges, one after another.
-- * Expose (`src/bin/tightbeam/expose.rs`): the command that publishes services, over Router, Grammar and Gate.
-- * Identity (`src/identity.rs`): the key file of a node, over its store.
-- * Builtins (`src/builtins.rs`, `src/tunnel.rs`): the forward and the reflector, over Grammar and Pump.
-- * Config (`src/config.rs`): the paths of a user's files, and the root that a node trusts.
-- * Command (`src/bin/tightbeam/main.rs`, `src/peer.rs`): what each command does, in order.
-- * Traffic (`src/tunnel/admit.rs`): the deadline for the first byte of an admitted stream.
--
-- A byte string is a list of numbers, and a text the list of its bytes. A reader's state is the
-- bytes that will still arrive, a writer's the bytes written (Base/Stream). Widths are written out:
-- u16 lengths, u64 products, a usize of 64 bits. A decoder recurses on the count that it read, a
-- list or a step relation. Only the loop of a lossy source runs for a number of turns: two are enough.
--
-- A codec, a refusal's detail, the message of a version mismatch, a source, a reader, the gate library
-- (gates, witnesses, tokens, keys), semaphores and the answers of system calls are parameters. Not
-- modelled: sockets, files and terminals, wakers, logs, the text of errors, the transport's handshakes
-- and the teardown token, what the other handlers do with their bytes, the resolution
-- of a peer's address, and the commands that connect and that mint, narrow and revoke links.
pub mod Base
pub mod Security
pub mod Protocol
pub mod Lifetime
pub mod Permits
pub mod Gate
pub mod Admit
pub mod Dispatch
pub mod Session
pub mod Sources
pub mod Traffic
pub mod Connector
pub mod Contract
pub mod Forward
pub mod Catalog
pub mod Wire
pub mod Fanout
pub mod Seat
pub mod Cut
pub mod Enabled
pub mod Router
pub mod Grammar
pub mod Identity
pub mod Pump
pub mod Builtins
pub mod Expose
pub mod Command
pub mod Config
pub mod Bridge
pub mod Policy
pub mod Tests
