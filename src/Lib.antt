-- ===== src/Lib.antt =====
-- YuDesk: remote desktop. This library models the parts of it that decide who may connect and what
-- crosses the wire, and proves what they promise.
--
-- The relay server keeps its accounts, licensed devices, activation keys and device codes in an
-- SQLite database (internal/account). Clients and agents exchange messages over one encrypted
-- connection, in packets that short messages may interleave with the fragments of long ones
-- (internal/protocol). A connection may ask for approval in place of the device's PIN; then the person
-- at the device lets it in (internal/approval). The input of the remote user passes a queue on each
-- side (mobile/core on the sending, internal/agentapp on the receiving side).
--
-- Files and sources:
-- * Base, Text, Sql: Booleans, lists and numbers; text as a list of code points with what the
--   sources use of `strings`, `fmt` and `encoding/hex`; SELECT, UPDATE, DELETE and INSERT as
--   functions on lists of rows.
-- * Account (internal/account/account.go, device_codes.go; DeviceID of internal/secureconn): Data
--   has a record per table and the store; Devices, Codes, Keys and Users have a function per method
--   of Store (RegisterLicensedDeviceNamed is `register_licensed_device`, Register is
--   `register_user`, and so on), from the store to its result and the next store. Calls makes each
--   writing method a step and a list of them a history. Moves says how a step may change a table;
--   the other modules are proofs.
-- * Protocol (internal/protocol): Wire is WriteMessage and ReadMessage on lists of bytes; Gate is
--   priorityGate, where what happens under the mutex is one event.
-- * Approval (internal/approval/approval.go): Broker has Request in two steps, `request` up to the wait
--   and `finish` from it on, with Resolve, Cancel and Pending.
-- * Input (internal/agentapp, mobile/core): Buttons is the tracking of mouse buttons that both queues
--   have; Queue is internal/agentapp/input_queue.go (`enqueue`, `dequeue` for a round of the worker,
--   `stop`); Hover tells a hover move from the accepted messages alone; Ring is latestMoveQueue of
--   mobile/core/queue.go, with the list it stands for.
-- * Stream (internal/stream): Options is Normalized, Latency the LatencyController without
--   FlightWindow, Tiles is TileFrame.Validate; Bounds and Tiling are proofs.
-- * Secure (internal/secureconn/secureconn.go): Keys is makeTranscript, deriveKeys, hkdfExpand and
--   proof, Handshake is Accept and Connect with their messages, each side a function from the bytes
--   that arrive to the bytes it sends and its connection; Records is Conn.Read and Conn.Write. The
--   cryptography is the parameter `Crypto`, the cipher under one key `Aead`, JSON `Formats`.
-- * Viewer (internal/viewerapp/tiles.go): Tiles is the hub that caches encoded tiles, with publish and
--   snapshot; Budget, Union, Follow and Reader are proofs.
-- * Relay (cmd/yudesk-relay/conference.go, meeting.go): Conference is the meeting under one code:
--   `enter` is handleConference under its second lock, `apply_message` and `leave_conference` are the
--   methods of those names, `hear` a round of readConferenceMessages.
-- * Nat (internal/natmap/pcp.go): Pcp is durationSeconds, marshalPCPMapRequest and
--   parsePCPMapResponse on lists of bytes; Layout is the answer's layout after RFC 6887.
-- * Lifecycle (internal/uilifecycle/tracker.go): Tracker, which closes the application after the last
--   browser page has gone away.
--
-- Choices: the clock is an argument, in whole seconds for the store and in nanoseconds elsewhere;
-- random bytes are arguments; a list of random numbers that ends is a random source that fails. SHA-256, Argon2 and the Unicode tables are the
-- parameter `Platform`, JSON is the parameter `Codec`. Statements of SQLite do not fail, except where
-- a constraint refuses them, and a transaction is one step. EnsureDeviceCode has the 100 rounds of its
-- loop as fuel; a message's fragments and its read loop have fuel that the theorem bounds by the
-- length of the data. A message's numbers on the wire stay below 2 ^ 32 since sizes are checked.
--
-- Not modelled: pacing and buffers of the connection, a packet's write that fails half way, an
-- already cancelled context, deadlines, the database's schema upgrade, and the parts of the program that are sockets,
-- screens, sound, installers or user interface.
pub mod Base
pub mod Text
pub mod Sql
pub mod Account
pub mod Protocol
pub mod Approval
pub mod Input
pub mod Stream
pub mod Lifecycle
pub mod Secure
pub mod Viewer
pub mod Relay
pub mod Nat
