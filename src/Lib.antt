-- ===== src/Lib.antt =====
-- The RCP protocol core of go-RCP, modelled and proved.
--
-- A frame arrives as bytes: an AVTPDU header (avtp/) around RCP-over-ACF messages (acf/). A message
-- that is a segment of a larger one goes through the reassembler (fragment/), whole messages go to
-- the dispatcher of the endpoint they address (request/). A message may carry a checksum over itself
-- (e2e/), which a guard in front of the endpoint's handler and the reassembler check; a supervisor
-- tells the dispatcher when a stream of requests calls for the safe state. A client may hold requests
-- back in a queue by priority (prioqueue/). The server (server/) keeps the register map (regmap/), which
-- streams change by their rights and as far as its lifecycle allows. An endpoint (gpio/) answers requests,
-- and keeps its configuration in that map. The keeper (watchdog/) purges the dispatchers of the streams that
-- the supervisor holds in the safe state. The router (udp/) hands each decoded request to the server or to the
-- endpoint it addresses, and makes its reply. A driver (powerstate/) transmits the handshakes that a wakeup
-- endpoint (wakeup/) queues as it wakes.
--
-- - Base and its children: shared names, Boolean tests on numbers, lists over the native numbers, the
--   error values and the result type, masks of bytes, big-endian fields, association lists.
-- - Avtp: avtp/address.go (`NewStreamID`, `MAC`, `Suffix`) and avtp/avtpdu.go (`EncodeHeader`,
--   `DecodeHeader`, `Disposition` and what they call).
-- - Acf and Acf.Decode: acf/message.go (`EncodeMessage`, `DecodeMessagePrefix`, `DecodeMessage`,
--   `SegmentNumber`, `ReadSize`, `ResponseKind`). Acf.Frame: acf/frame.go (`EncodeFrame`,
--   `DecodeFrame`).
-- - Acf.Evt: acf/evt.go.
-- - E2e: e2e/crc.go (`Compute`, `Protect`, `Verify`, `VerifyFragmented` and what they call), with
--   hash/crc32 as that file uses it. E2e.Guard: e2e/guard.go. E2e.Supervisor: e2e/watchdog.go.
-- - Fragment: fragment/types.go and fragment/segment.go (`KeyOf`, `Split`). Fragment.Reassembler:
--   fragment/reassembler.go (`Add`, `Finish`, `Sweep`, `Pending`),
--   Fragment.Reassembler.Protected: its `FinishProtected`. Fragment.Gateway: fragment/gateway.go, whose
--   `Submitter` is an interface that the request dispatcher fills.
-- - Request.Kind, Request.Sequencer, Request.Envelope, Request.Chained, Request.Ticket: the files of
--   request/ of those names. Request.Dispatcher: request/dispatcher.go up to `execute` and
--   `PurgeNonSafety`, Request.Dispatcher.Pump: `Pump`, `Response`, `StateOf`, `Forget`, `Pending` and
--   `Dispatch`, Request.Dispatcher.Reachable: `NewDispatcher` and the runs of a dispatcher. The handler, the checks and the trigger pumps are the caller's code: they are fields
--   of the dispatcher, functions on a state of the caller that the handler and the pumps may change.
--   The modules under these two prove what an operation does to each ticket.
-- - Prioqueue: prioqueue/queue.go, over container/heap as a collection that gives up a least item.
-- - Regmap: regmap/access.go, regmap/pinmap.go, regmap/queues.go and the register map of
--   regmap/registermap.go as data. Regmap.Codec: the bytes of that map (`EncodeRegisterMap`,
--   `DecodeRegisterMap` and what they call). Server: server/server.go, server/discovery.go,
--   lifecycle/lifecycle.go and discovery/claim.go, with Server.Reads for `ReadEndpoint`, `ReadEP0`,
--   `ReadDiscovery`, `HandleDiscoveryRequest` and `ApplyConfigRequest`, whose callbacks are functions
--   on a state of the endpoint.
-- - Gpio: gpio/. Its callbacks fill the interface of Server.Configured, `IsCallback`. The server behind an
--   endpoint is an argument and a result of its methods.
-- - Wakeup: wakeup/, a power state machine. Powerstate: powerstate/driver.go, which transmits what the
--   machine queues; the transmitter is the caller's, any function.
-- - Watchdog: watchdog/keeper.go, over a store that gives the dispatcher behind each pointer.
-- - Deadline: deadline/. Controller: the methods of udp.Controller that the wrapping packages call, an
--   interface. Udp: udp/router.go, udp/ep0.go and udp/errorcode.go, in front of the server and of the
--   handlers that a caller registers; Udp.Served is the router in front of a server and a GPIO endpoint. Authz: authz/, Redundancy: redundancy/, over that interface.
--
-- A function keeps its source's name in snake case. A Go value and an error become a `Result`, with
-- one value of `Error` per error variable of the source; a method that changes its receiver returns
-- the new state behind its result. A byte is a number below 256 and a byte slice a list of them;
-- the conditions that say so (`IsHeader`, `IsMessage`, `AllBytes`) are what the Go types guarantee.
-- A map is an association list with each key once. A method runs under its mutex, so it is one step.
--
-- Only `DecodeFrame` loops on its input without a count: it runs on fuel, and each round takes at
-- least one byte, so as much fuel as there are bytes is enough. The clock's reading is an argument of the methods
-- that take it, in nanoseconds. A negative `time.Duration` or size takes the branch of 0, and is 0.
--
-- Not modelled: the printing of values; sockets and the clients and servers on them (the rest of udp/, l2/, tsn/,
-- shmem/, mdns/), whose behaviour is the network's; the bridges to other protocols; the endpoints beside gpio/ and
-- wakeup/, which are built as gpio/ is; the token bucket of ratelimit/, which counts in floating point; the
-- standard library's locks; the tools, the examples and the packages that report on the code.
pub mod Base
pub mod Avtp
pub mod Acf
pub mod E2e
pub mod Fragment
pub mod Request
pub mod Prioqueue
pub mod Regmap
pub mod Server
pub mod Gpio
pub mod Watchdog
pub mod Deadline
pub mod Controller
pub mod Authz
pub mod Redundancy
pub mod Wakeup
pub mod Powerstate
pub mod Udp
