-- ===== src/Lib.antt =====
-- Netrex RakNet, an implementation of the RakNet protocol on UDP in Rust: the core that carries
-- packets over an unreliable network. A connection (src/connection/conn.rs) queues what is to be
-- sent, or hands it to the handler (src/internal/handler.rs), which puts payloads into frames, frames
-- into datagrams with sequence numbers (src/internal/frame), keeps the datagrams that must be
-- acknowledged (src/internal/frame/reliability/cache.rs), and numbers messages by channel. ACK and
-- NACK packets (src/internal/ack/ack.rs) name sequence numbers; received packets stand in an ordered
-- queue (src/internal/queue.rs). What is received goes the other way: the server (src/server/tokio.rs) hands
-- a datagram to the connection of its address, which answers the packets of the handshake
-- (src/protocol/packet) itself and leaves datagrams of frames to the handler. The handler puts fragments
-- together and gives the payloads back to the connection, which answers those that are packets of the
-- protocol and makes events for the server of the others. The server ticks its connections, which sends
-- what waits and asks again for what is missing, and drops those that are disconnected.
--
-- The files, with the code that each models:
--   Queue: `Queue` and `SendPriority` of src/internal/queue.rs. `Queue::new` is `empty`.
--   OrderedQueue: `OrderedQueue` of src/internal/queue.rs. `OrderedQueue::new` is `empty`; `clear_loop`,
--     `missing_loop` and `sort_by_key` are the loops and the sort of its methods.
--   Ack: src/internal/ack/ack.rs. `Pass` and `missing_step` are the loop of `from_missing`;
--     `compose_ack` is the body of `compose` on the cursor.
--   Reliability: src/internal/frame/reliability/mod.rs.
--   Cache: `CacheStore` of src/internal/frame/reliability/cache.rs.
--   Frame: `Frame` and `partition` of src/internal/frame/mod.rs, and src/internal/frame/fragment.rs.
--     `parse_head` and `compose_head` are what is done before the body.
--   FramePacket: `FramePacket` of src/internal/frame/mod.rs.
--   State: src/connection/state.rs.
--   Address: src/internal/util.rs. `ToSocketAddrs` and the texts of addresses are the parameter `Resolver`.
--   Packet: the packets of src/protocol/packet (online.rs, offline.rs) and src/protocol/util.rs in
--     Packet.Data, and their bytes, with `Packet` and `Payload` of src/protocol/packet/mod.rs, in Packet.Codecs.
--     Packet.Convert has the conversions that `register_packets!` of src/protocol/packet/mod.rs writes for them.
--   Motd: src/protocol/mcpe/motd.rs; `write`, `compose` and `parse` in Motd.Text, where the codec of `String` is
--     a parameter. `of_parts` is what `compose` does with the parts of the text.
--   Server: the types of src/server/tokio.rs that a connection holds.
--   Meta: `RakConnHandlerMeta` of src/internal/handler.rs.
--   Connection: the struct `Connection` of src/connection/conn.rs, `new`, `max_frame_size`, `send` and
--     `send_immediate`.
--   Send: `send_frames`, `send_frame` (here `send_packet`) and `send_framed` of `RakConnHandler` in
--     src/internal/handler.rs, and `send_stream` and `send_frame` of `Connection`. `initial_indexes`,
--     `stamp`, `note_fragment` and `enter` are the parts of `send_frames` in their order.
--   Acknowledge: what `RakConnHandler::handle` in src/internal/handler.rs does with a NACK
--     (`handle_nack`) and an ACK (`handle_ack`). `resend` and `forget` are what is done for one number.
--   Tick: `RakConnHandler::tick` in src/internal/handler.rs. `queue_loop`, `ask_missing`, `acknowledge` and
--     `resend_overdue` are its steps in their order.
--   Protocol: `handle_offline` and `handle_online` of src/protocol/packet/handler.rs, and `send_packet` and
--     `disconnect` of `Connection`. `closed` is what `disconnect` does before it sends anything.
--   Receive: `handle`, `handle_raw_frame`, `handle_frame` and `handle_packet` of `RakConnHandler` in
--     src/internal/handler.rs, and `handle` (here `handle_buffer`), `recv`, `is_disconnected` and `tick` of
--     `Connection`. `note_reliable` and `collect` are the parts of the loop of `handle_raw_frame`.
--   Lifecycle: the calls of the methods of a connection, one after another.
--   Registry: `RakNetServer` of src/server/tokio.rs, and one round of each task of `start`: `deliver` takes a
--     message to send, `accept` a datagram, and `tick_all` ticks the clients, hands their events to the
--     listener, drops those that are disconnected and empties the queues. `start` here is what
--     is done before the tasks, and `relay` sends what a connection has sent at once. Registry.Apart takes the
--     datagrams of several clients one after another.
--   Link: two connections and what arrives between them, some of it late, twice or never: `send_all` and
--     `recv_all` are their calls one after another, and `arriving` is what the network makes of the datagrams.
--     Link.Handshake is the handshake of a client, datagram by datagram. These have no code of their own.
--   Decimal: decimal texts as the standard library writes and reads them.
--   Wire: the reads and writes of the crate `byteorder` and the cursor.
--   Prelude: outcomes, hash maps, tests and lists.
--   Examples: runs of the theorems at concrete inputs.
-- Methods that change `self` return the new state, with their result if they have one.
--
-- A Rust call has an outcome (Prelude.Outcome): a value, a `BinaryError`, a panic, or `stuck` where a
-- loop on fuel has used it up. Numbers are natural numbers; a field of a struct holds the number, and
-- arithmetic wraps at the width of its Rust type as it does without overflow checks (`% 2 ^ 16`,
-- `% 2 ^ 32`). A `HashMap` or `HashSet` is an association list with one entry a key, and it is iterated in
-- the order of the list. The current time is an argument. What is sent on the connection's channel
-- is kept in order in its field `sent`.
--
-- Fuel: `partition` gets one more than the length of the payload, and a round takes the fragment size
-- off what is left. `FramePacket::compose` gets one more than the length of the source, and a round
-- reads a byte at least. Both suffice by theorems below, the first for a fragment size above 0.
--
-- The crate `byteorder` is the parameter `ByteOrder` with the laws `IsByteOrder`: what it writes has the
-- width of its number, a 24-bit write of a number of 24 bits succeeds and has three bytes, and its reads
-- give back the number. `Wire.Reference` is an instance. `Streamable::fparse` of the crate `binary_utils` is the parameter
-- `fparse`, a function of the outcome of `parse`; where a theorem relies on it, it returns the bytes of
-- an outcome without an error.
--
-- The crate `binary_utils` derives the codecs of most packets: they are the parameter `BinaryUtils` with the
-- laws `IsBinaryUtils`, that a value whose fields fit their types is read back from its bytes.
-- `Packet.Codecs.Reference` is an instance. An `i64` is held as its 64 bits. The model is that of the default
-- features, so without `mcpe`, under which a pong would hold the message of the day.
--
-- A call of the receiving side may return an error after it has changed the connection, so `Handled` is the
-- connection with the error, if there is one. What is only logged is left out.
--
-- Not modelled: the sockets, channels and spawned tasks of src/server/tokio.rs outside the lock of the
-- clients, the packet of the feature `mcpe` in src/protocol/mcpe/packet.rs, and the texts that are only
-- logged.
pub mod Prelude
pub mod Wire
pub mod Queue
pub mod OrderedQueue
pub mod Ack
pub mod Reliability
pub mod Cache
pub mod Frame
pub mod FramePacket
pub mod State
pub mod Decimal
pub mod Motd
pub mod Server
pub mod Meta
pub mod Connection
pub mod Address
pub mod Packet
pub mod Send
pub mod Acknowledge
pub mod Tick
pub mod Protocol
pub mod Receive
pub mod Lifecycle
pub mod Link
pub mod Registry
pub mod Examples
