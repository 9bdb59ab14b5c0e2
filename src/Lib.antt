-- ===== src/Lib.antt =====
-- Verification library of libp2p-transport-veilid, a libp2p transport over the Veilid network.
--
-- The program. A transport (src/lib.rs) owns listeners (src/listener.rs). A listener keeps a map
-- from addresses (src/address.rs) to streams (src/stream.rs) and handles the updates of the Veilid
-- node: messages of the handshake and of the data, and news of the node (src/node_status.rs). A
-- stream carries an ordered byte stream over datagrams: a write is framed, the frames are cut into
-- numbered messages (counters: src/stream_seq.rs), and messages are sent again until the other side
-- acknowledges them. A connection (src/connection.rs) gives libp2p a stream's two ends.
--
-- Which file models which part:
--   External: what is taken from veilid_core, libp2p and prost, as one record of parameters, and
--     the fields of proto/generated/payload.rs.
--   Config: the constants of src/lib.rs. Times are in nanoseconds.
--   Address: src/address.rs. The answers of the network API are the argument `Api`.
--   Seq: src/stream_seq.rs. Numbers wrap at 32 bits, as in a release build.
--   Stream: the record `VeilidStream` of src/stream.rs, its setters and its status. Stream.Inbound
--     models receiving and reading, Stream.Outbound writing, cutting and sending. A mutex is a field,
--     a method is a function to the new record and a list of effects (`Effect`).
--   Connection: src/connection.rs.
--   NodeStatus: src/node_status.rs and src/utils.rs.
--   Listener: the shared state of src/listener.rs. Listener.Decode models `decode_message`,
--     `verify_signature` and the type of a message; Listener.Message the handler of an AppMessage,
--     one function for each status of the stream; Listener.Updates the other updates.
--   Listener.Upkeep: `should_update_target`, `update_target` and `check_address_dht_record` of
--     src/listener.rs. A spawned task is a function of its own on the listener's state.
--   Listener.Events: `get_next_event` with its two channels as lists, the tasks that it spawns, and
--     `send_ping`, the message of a listener to its own target.
--   Transport: `VeilidTransport` of src/lib.rs, with `new` and `heartbeat`, of which Transport.Streams
--     has the loops over streams. A heartbeat is on one reading of the clock. Transport.Listen models
--     `listen_on`, Transport.Dial `dial` and its future, and Transport.Loop `poll`; Transport.Runs has
--     them in any order.
--   NodeConfig: src/settings.rs, whose `lookup_config` the transport gives to Veilid as a callback.
--     NodeConfig.Table has `CONFIG_TABLE` and `get_value_type`, NodeConfig.Defaults src/settings.toml,
--     NodeConfig.Values the conversion of a TOML value, NodeConfig.Disk the node's directory, on which
--     each call can fail, NodeConfig.Keys `manage_keypair`, and NodeConfig.Lookup `lookup_config`.
--   Errors: src/errors.rs.
--   Session: two streams and the network between them, as a step relation. A step is one operation
--     of one side; any message ever generated can arrive at any time and any number of times.
--     Session.Channel has the queue of bytes that it stands for while no message ends inside a
--     slice's header.
--   Duplex: two streams that both write and read, each with a history of its own.
--   Tests: concrete nodes, streams, sessions and settings.
--
-- Loops. `collect_slices` runs on the length of its buffer, of which each round takes four bytes at
-- least; `drain_queue` on the length of the queue, from which each round removes a message;
-- `generate_loop` on the length of the outbound stream, of which each round takes a byte at least.
--
-- Bounds. A write is shorter than 2 ^ 32 bytes, since its length travels in 32 bits, and a session
-- generates fewer than 2 ^ 32 messages, since their numbers do.
--
-- Panics. A send panics if the routing context refuses the safety selection of a node's id, or if a
-- message is too long; the handler, the dial's future or the heartbeat then ends with that as its
-- result.
--
-- Parameters. External holds what the code calls of veilid_core, libp2p and prost; NodeConfig.Formats
-- what src/settings.rs calls of toml, libp2p and veilid_core. What a property relies on of them is a
-- hypothesis of it: texts, keys, payloads and signatures that can be read back.
--
-- Not modelled: the update callback of `VeilidTransport::new`, which hands each update to a task of
-- its own, so that updates arrive in any order; the build script; the poisoning of locks; and
-- interleavings inside one method, but for the tasks that it spawns. The branch of `convert_update`
-- for a route change, and the heartbeat's lookup of its own target, only log. Logging is left out
-- everywhere.
pub mod Prelude
pub mod External
pub mod Config
pub mod Errors
pub mod Address
pub mod Seq
pub mod Stream
pub mod Session
pub mod Duplex
pub mod Connection
pub mod NodeConfig
pub mod NodeStatus
pub mod Listener
pub mod Transport
pub mod Tests
