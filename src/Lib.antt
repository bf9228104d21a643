-- ===== src/Lib.antt =====
-- The reliable transport of signalk-edge-link, which carries Signal K deltas from a client to a server
-- over UDP. A sender numbers its packets, keeps them until they are acknowledged and sends them again on
-- request; a receiver tracks the numbers that arrive, asks for the missing ones and refuses replays.
-- This library models that core, the packets and payloads that it exchanges, the buffer before it and
-- the two links that can carry it.
--
-- Parts, and the files that model them:
--   src/transport/reliability/sequence.ts: SequenceTracker.antt, one function per method of the class.
--     A set timer is membership in `nak_timers`; the callbacks are the inputs `timer` and `flush` of
--     SequenceTracker/Steps.antt, so that every order of packets and callbacks is a list of inputs. The
--     calls of `onLossDetected` and `onGapAbandoned` are logged in `events`.
--   src/transport/reliability/replay-window.ts: ReplayWindow.antt.
--   src/transport/reliability/retransmit-queue.ts: RetransmitQueue.antt; the clocks that the class reads
--     are arguments.
--   src/foundation/circular-buffer.ts: CircularBuffer.antt.
--   src/transport/reliability/connection-epoch.ts: ConnectionEpoch.antt.
--   src/domain/monitoring/packet-loss-tracker.ts: PacketLossTracker.antt.
--   src/codec/packet/constants.ts: Packet.antt; builder.ts: Packet/Builder.antt; parser.ts:
--     Packet/Parser.antt. A thrown error is a constructor of `PacketError`.
--   src/codec/crypto.ts: Crypto.antt, for the keys and the authentication tags of packets.
--   src/codec/value-dedup.ts: ValueDedup.antt, over the deltas of Delta.antt and the values of Json.antt,
--     which has `JSON.stringify`; src/codec/compact-delta.ts: CompactDelta.antt.
--   src/domain/delta-batcher.ts, the buffer of src/app/connection/process-delta.ts, and what starting and
--     stopping in lifecycle-ops.ts beside it do to their state: DeltaBatcher.antt.
--     The end of an awaited send, the callbacks of timers and those of `setImmediate` are events.
--   src/transport/pipeline/reliable-server, sessions.ts, data-handler.ts, receive.ts and context.ts:
--     Server.antt and its children (Sessions: the table of sessions; Acks: the periodic ACKs and the
--     expiry; Data and Hello: what a parsed packet does; Run: all inputs), the rate limiters in
--     RateLimit.antt, the replay guards in ReplayGuard.antt. An address or a peer is a number.
--   src/transport/pipeline/reliable-client, reliability.ts, context.ts and the end of delta-sender.ts:
--     Client.antt. The awaited sends of the loops that send packets again are inputs of their own, so
--     that the handlers interleave.
--   src/transport/bonding.ts, bonding-health.ts, bonding-types.ts: Bonding.antt, with the heartbeats and
--     their reflection.
--   Shared: Prelude (tests, lists, results), Serial (uint32 serial numbers), JsSet and JsMap (a
--     JavaScript Set and Map with number keys, in insertion order), Bytes (Node's Buffer).
--
-- How they interact: deltas wait in the buffer (DeltaBatcher) and become payloads (ValueDedup,
-- CompactDelta); the client builds packets (Packet/Builder), queues them (RetransmitQueue), drops them
-- when an ACK arrives and sends them again on a NAK (Client, which calls both). The server parses
-- packets (Packet/Parser), keeps a session per peer with a tracker in it (Server, which calls
-- SequenceTracker, ReplayGuard and RateLimit) and answers with ACKs and with the NAKs that the tracker
-- asks for. Client and Server are judged over any list of inputs, timers and packets in any order, the
-- client from its creation; the classes below them are judged over any list of calls.
--
-- Numbers are natural numbers. A uint32 is reduced modulo 2 ^ 32 where the code writes `>>> 0`; several
-- statements are about the unbounded numbers that a sender counts, of which the code sees the residues.
-- Fuel occurs twice: in `advance` of the tracker it is the number of received sequences, which is enough
-- since the loop passes each of them at most once, and in `nak_chunks` of the server the length of the
-- batch, which is enough since every chunk takes a number. All other loops are structural.
--
-- Parameters: `NodeCrypto` stands for Node's HMAC-SHA256 and PBKDF2, with the lengths of their results.
-- Left out: the text of errors and of a HELLO's JSON, the display names of packet types, the average in
-- the queue's statistics (a float), the cache of derived keys, encryption, and all
-- that only calls the host, the network or the file system.
--
-- Not modelled: congestion control (src/transport/congestion.ts, floating point), the path dictionary,
-- the source codec, the sanitizer, metadata, snapshots and compression (src/codec), the source registry,
-- keep-alive, subscriptions, metrics and the other monitors (src/domain), the sockets and the first
-- version of the pipelines (src/transport), the rest of the application (src/app), its configuration,
-- the routes and the web application.
pub mod Prelude
pub mod Serial
pub mod JsSet
pub mod JsMap
pub mod Json
pub mod Delta
pub mod DeltaBatcher
pub mod ValueDedup
pub mod CompactDelta
pub mod RetransmitQueue
pub mod SequenceTracker
pub mod CircularBuffer
pub mod ReplayWindow
pub mod Bytes
pub mod Crypto
pub mod Packet
pub mod ConnectionEpoch
pub mod PacketLossTracker
pub mod RateLimit
pub mod ReplayGuard
pub mod Server
pub mod Client
pub mod Bonding
