-- ===== src/Lib.antt =====
-- polaris-trade: the market-data clients, as functions over their state.
--
-- The repository holds clients of two Nasdaq protocols over pluggable transports. The MoldUDP64 client
-- (crates/clients/moldudp) receives datagrams on one or more legs, parses them (wire.rs), takes each
-- sequence from the first leg that brings it (ab.rs), puts messages in order (reassembly.rs), keeps
-- track of what is missing and asks for it again (gap.rs), and hands the messages out one by one
-- (receiver/decode.rs, with the state of receiver/mod.rs).
--
-- Files and the code they are about:
-- - Base: lists, big-endian words, `BTreeMap` and `HashMap` as association lists, `Result`.
-- - Transport.Error: crates/transports/core/src/error.rs.
-- - Transport.Decap: crates/transports/core/src/decap.rs; `parse_udp` cut at its headers, and the loops of
--   `UdpDecap` over a source `recv_burst`. Decap.Bounds is about one frame, Decap.Deliver about many.
-- - Transport.Tests: a padded frame.
-- - Transport.Batch and Transport.IndexPool: `FrameBatch` of crates/transports/core/src/transport.rs, and the pool of
--   slots of crates/transports/core/src/pool/index.rs.
-- - Transport.Bypass: `BypassTransport` of crates/transports/core/src/bypass/mod.rs over a driver that is a parameter;
--   Bypass.Deferred is about the errors that wait for the next call.
-- - Moldudp.Error: crates/clients/moldudp/src/error.rs.
-- - Moldudp.Wire: crates/clients/moldudp/src/wire.rs; `parse_header`, `MessageBlockIter::next` as `next`
--   and `take_block`, and the collecting loop of `process_next_pending` as `collect_blocks`. Its children
--   hold the layout of a header (Header), the bounds of the blocks (Blocks) and the round trip (RoundTrip).
-- - Moldudp.Gap: `GapRequestHandler` of gap.rs. Gap.Ranges says what an entry of the map means, Gap.Record,
--   Gap.Received and Gap.Pending are about one operation each, Gap.Canonical about the map as a set.
-- - Moldudp.Emitter: `GapRequestEmitter` of gap.rs; its socket is a parameter `send_to`.
-- - Moldudp.Ab: `AbArbiter` of ab.rs. Ab.Window relates the bits to the sequences forwarded so far,
--   Ab.Dedupe is about histories of calls.
-- - Moldudp.Reassembly: `SequenceReassembler` and `DrainCursor` of reassembly.rs. Reassembly.View sees the
--   ring as a map from sequences to payloads, Reassembly.Drain is about the cursor.
-- - Moldudp.Receiver: `Inner` of receiver/mod.rs without its legs (Moldudp.Receive has them), frame.rs and event.rs;
--   Receiver.Decode: `process_next_pending` of receiver/decode.rs, cut at its loops and branches;
--   Receiver.Outcome: `yield_item`, `yield_owned` and `retire_current`. Receiver.InOrder, Receiver.Process
--   and Receiver.Refused are about decoding.
-- - Moldudp.Receive: `poll` and `pump` of receiver/recv.rs, `poll_legs` of receiver/decode.rs and the `Requester` of
--   receiver/recovery.rs; the legs, the recovery and the clock are parameters. The fuel of `pump_fuel` is a
--   number of rounds, and a spent one leaves the receiver between two of them. Receive.Kept is about the queue
--   of datagrams while one is decoded, Receive.Numbered about `pump`, Receive.Polls about polls in a row, Receive.Waiting
--   about the number of datagrams that wait, and Receive.Ends about the end of a poll.
-- - Moldudp.Construct: `from_legs` and `with_requester` of receiver/construct.rs; Construct.Started is about a receiver
--   that was built with a start sequence. Pools have their capacity as a parameter.
-- - Moldudp.Tests and Moldudp.ReceiverTests: concrete packets, gaps, legs and receivers.
--
-- The SoupBinTCP client (crates/clients/soupbintcp) keeps one session over a byte stream: it queues a login
-- request, lands bytes in a buffer, cuts packets off it (wire.rs), and dispatches them by the state of the
-- session (session.rs).
--
-- - Soupbintcp.Error: crates/clients/soupbintcp/src/error.rs; a text of `ProtocolViolation` is a constructor.
-- - Soupbintcp.Wire: wire.rs. Its child RoundTrip holds the layout of a packet.
-- - Soupbintcp.Ascii: the text fields at the end of session.rs, with UTF-8, `str::trim` and
--   `str::parse::<u64>` written out.
-- - Soupbintcp.Session: `Session` of session.rs, its outbound half and clock, and `ingest`;
--   Session.Inbound: `take_packet` and the two dispatchers. Session.Queue is about the outbound buffer,
--   Inbound.Chunks about bytes that arrive in pieces, Inbound.Numbers about numbered messages.
-- - Soupbintcp.Client: the sync driver, `start`, `poll` and what they call, at the end of session.rs;
--   Client.Lifecycle is about its loops, Client.States about the state of the session.
-- - Soupbintcp.Compressed: `CompressedReader` of compressed.rs over an inflator that is a parameter, and `ingest` of
--   session.rs with the feature `compressed`. Compressed.Inflated is about the calls of the inflator and the loop
--   over them, Compressed.Fed about a `feed`, Compressed.Ingested about `ingest`; Compressed.Splice is about the buffer.
-- - Soupbintcp.Tests and Soupbintcp.CompressedTests: a session on concrete bytes, plain and stored.
--
-- The socket transports take datagrams off a kernel socket into slabs of a pool.
--
-- - Transport.VecPool: pool/vec.rs and pool/backend.rs of crates/transports/core/src.
-- - Socket: the receive loop `burst` of crates/transports/socket/src/recv.rs and the socket of udp.rs, on Linux; the
--   kernel's socket is a parameter. Socket.Delivered is about the datagrams that fit a slab,
--   Socket.Outcome about the ways in which a burst ends, Socket.Received about what it does; Socket.Tests runs one.
--
-- The transports that bypass the socket layer move frames between rings that they share with the kernel. Their
-- frames hold slots of an `IndexPool`, which come back when the frames are dropped.
--
-- - Afxdp.Ring: crates/transports/afxdp/src/ring.rs. Ring.Contents sees a ring as the list of what is on it,
--   Ring.Refine is about the process's side, Ring.Peer about the kernel's.
-- - Afxdp.Driver: `Rings` and `locate` of crates/transports/afxdp/src/driver.rs. Driver.Collect, Driver.Outcome and
--   Driver.Ends are about the loop of `poll_frames`, Driver.Refill about `refill`.
-- - Afxdp.System: the driver beside the kernel and the holders of its frames, as a step relation. System.Invariant and
--   System.Conserve keep count of the slots, System.Kept of their sizes, System.Owned says who owns a slot.
-- - Afxdp.Xsk: `XskDriver` of driver.rs over a socket that is a parameter; Xsk.Receive is about a whole `poll_frames`.
-- - Afxdp.Config: crates/transports/afxdp/src/config.rs; Config.Accepted says what `validate` accepts.
-- - Afxdp.Open: `AfxdpL2::bind` of lib.rs and `XskDriver::open` of driver.rs with what it calls, over a kernel that is a
--   parameter. Open.Mapped is about the offsets of a mapped ring, Open.Fresh about the state that `bind` starts in.
-- - Afxdp.Tests and Afxdp.OpenTests: four frames of 2048 bytes, and a kernel that grants everything.
-- - IoUring.Completion, IoUring.RingMem: completion.rs and ring_mem.rs of crates/transports/io-uring/src.
-- - IoUring.Driver: the fleet and the completions of crates/transports/io-uring/src/driver.rs. Driver.Slots is about the
--   slots that come back, Driver.Provide about those that go.
-- - IoUring.Poll: `poll_frames` of the same file and what it calls, over a ring of the kernel that is a parameter.
--   Poll.Armed and Poll.Kept are about the fleet, Poll.Counted, Poll.Pushed and Poll.Owed about the recvs that it counts.
-- - IoUring.Requests: what the kernel says of a recv in its completions.
-- - IoUring.Cancel: `cancel_recvs` and `drop` of the same file; a clock and the wait for a completion are parameters.
--   Cancel.Quiet is about the recvs that the kernel still has.
-- - IoUring.Tests and IoUring.CancelTests: rings with a few completions.
--
-- State and errors: a method on `&mut self` takes the record and returns it with its answer; a panic is
-- `none`. Where `?` leaves a method early, the state is the one that the code has reached by then.
--
-- Numbers: sums on u64 wrap round (`add64`), as they do in a release build; a theorem that needs a sum not
-- to wrap says so. Times are nanoseconds, and the difference of two instants stops at 0.
--
-- Fuel: `absorb_following` runs on the number of entries, since each round removes one; `chunk_range` on the
-- length of the range; `collect_blocks` on the announced count; `slide` on the distance to its target;
-- `drain_fuel` on the number of slots and one more, since each round empties one; `flush_fuel` on the bytes
-- queued and the dispatchers on the bytes buffered, and one more, since each round takes a byte at least.
-- `provide_fuel` runs on the slots that are
-- left and one more, since each run has a slot at least; `poll_xsk` gives the loop of `poll_frames` a round
-- for each descriptor on the ring and one more. `feed_fuel` runs on the bytes of the input and of
-- the reader and one more, since each round but the last moves a byte; `cancel_fuel` on the nanoseconds of the wait and
-- one more, since the clock of its theorem moves on. `pump_fuel` on the datagrams that wait and
-- that the sources hold, and one more, since each round decodes one. `fill_fuel`, `burst_fuel` and the
-- loops of `poll` run on any fuel, and answer `none` when it is spent.
--
-- A frame is a list of bytes, and an `Arc` is the datagram that it shares, which nobody writes.
-- `sort_unstable` is a sort by insertion, which on distinct numbers gives the same list.
--
-- A ring that is shared with the kernel is its words and its entries. The kernel acts between the operations of the
-- driver and between the rounds of its loop, and keeps the protocol of its side: it takes what is on the fill
-- ring, and hands back a slot that it has taken by a descriptor that starts in it. Its Acquire and Release
-- orderings are not modelled: loads and stores happen in the order in which they stand.
--
-- Not modelled: `recv_owned` and the async wait (wait.rs) of the MoldUDP64
-- client; the async driver of the SoupBinTCP client (client.rs); logs; the
-- system calls behind the opening and closing of sockets, the probe of io_uring and the XDP program; DPDK, which is
-- foreign code; the wrappers of mio and tokio sockets.
pub mod Base
pub mod Transport
pub mod Moldudp
pub mod Soupbintcp
pub mod Afxdp
pub mod IoUring
pub mod Socket
