-- ===== src/Lib.antt =====
-- neemata: the parts of the framework whose behaviour is its own, and what is proved of them.
--
-- The program is a set of TypeScript packages. A client and a server speak a binary protocol
-- (packages/protocol) over WebSockets (packages/transports); calls may announce streams of bytes in
-- both directions, which are paid for in credit; long-running work is a workflow, whose runs and
-- commands are kept by a runtime (packages/workflows); start, stop and admission are ordered by small
-- primitives (packages/common); services are made and disposed by a container (packages/core); events
-- are published to subscribers (packages/pubsub).
--
-- Which file models what:
--   Wire/Bytes, Wire/Utf8      packages/protocol/src/common/binary.ts: encodeNumber, decodeNumber, concat,
--                              encodeText, decodeText
--   Wire/Messages              packages/protocol/src/common/enums.ts and the payload types of the two
--                              protocol.ts
--   Wire/Server, Wire/Client   packages/protocol/src/server/versions/v1.ts and
--                              packages/protocol/src/client/versions/v1.ts: decodeMessage, encodeMessage
--   Streaming/Pump             packages/protocol/src/server/stream.ts: ProtocolServerStream
--   Streaming/Index, Uploads   packages/transports/src/neemata/ws/streams.ts: the client streams of
--                              BlobStreamsManager, and its maps; the session's `read` of one
--   Streaming/Downloads        packages/transports/src/neemata/ws/streams.ts: the server streams, each
--                              with its pump
--   Streaming/Responses        packages/transports/src/neemata/ws/session.ts: the streaming response of a
--                              call in handleRpc, with its chunk credits
--   Streaming/Window           packages/client/src/layers/rpc.ts: the client's window for it
--   Calls                      packages/transports/src/neemata/ws/rpcs.ts: RpcManager
--   Workflows/Items, Commands  packages/workflows/src/runtime/in-memory.ts: the queues of
--                              runCoordinationExecutor and attemptExecutor
--   Workflows/Transitions      packages/workflows/src/runtime/transitions.ts and status.ts
--   Workflows/Runs             packages/workflows/src/runtime/in-memory.ts: createRunWithState, the status
--                              operations on runs, the run leases
--   Workflows/Nodes            packages/workflows/src/runtime/in-memory.ts: the operations on nodes, on
--                              their children and on attempts; Ledger is what they promise
--   Workflows/Schedules        packages/workflows/src/runtime/scheduler.ts and in-memory.ts: reconcile,
--                              fireDue and setEnabled, for one schedule
--   Core/Injectables           packages/core/src/injectables.ts: scopes and effective scopes
--   Core/Resolution            packages/core/src/container.ts: resolveInjectable, up to the creation
--   Core/Disposal              packages/core/src/container.ts: getDisposalOrder and dispose
--   Pubsub                     packages/pubsub/src/manager.ts: subscribe, publish, createMessageStream
--   Sync/Semaphore             packages/common/src/semaphore.ts
--   Sync/Operations            packages/common/src/operation-queue.ts, the strategy `latest`
--   Sync/Lifecycle             packages/common/src/lifecycle.ts
-- The folder below a file has its lemmas, its theorems and its tests. Common has the helpers that all
-- share.
--
-- A component is a record of its fields, with one function per method and the method's guards in it.
-- Code that waits is cut where it waits: an event or an operation of a step relation is what runs
-- without interruption, and a theorem on histories takes them in any order. Effects on a peer, a
-- socket or a platform stream are logged in the state. Errors are values of `Outcome`.
--
-- Numbers of the wire wrap at their width, as `% 256` of each byte. Other numbers are natural
-- numbers: the source subtracts only where it has checked that it may, or takes the maximum with 0.
-- Strings are lists of code points; names, ids and keys that are only compared are numbers. Times are
-- milliseconds, and an operation of the workflow runtime reads `Date.now()` once, but fireDue at its start and end.
--
-- The loop of the pump runs on fuel, two rounds more than the reads of the source: a round either ends
-- the loop, or uses up a read or the buffered rest of one. That the fuel never runs out is a lemma of
-- Streaming/Pump/Turns. A resolution in a container runs on fuel for the aliases it follows, of which one
-- more than are provided is enough, and the walk of a disposal on one more than there are instances.
-- All other loops are recursions on lists.
--
-- Parameters: the format of payloads (JSON or MessagePack, over libraries), with the hypothesis that
-- it reads back what it wrote; whether the transport drops a frame, without a hypothesis; the order
-- of ids as strings, without one; the schemas of published events, with the hypothesis that they
-- decode what they encoded; the next date of a cron expression, which a library computes, with
-- the hypothesis that it is later than the date asked for.
--
-- Not modelled: the rest of the sessions and of the client, the
-- creation of instances in the container, the coordinator of workflows, and the integrations; the
-- Postgres adapter, whose behaviour is in SQL; wake-up listeners, which only hint at work.
pub mod Calls
pub mod Common
pub mod Core
pub mod Pubsub
pub mod Streaming
pub mod Sync
pub mod Wire
pub mod Workflows
