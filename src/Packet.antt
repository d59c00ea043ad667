-- ===== src/Packet.antt =====
-- src/protocol/packet: the packets of the protocol, and which bytes stand for which. The default
-- features are taken, so `UnconnectedPong` has no message of the day. An `i16` or `i64` is the number
-- of its bits. `#[derive(BinaryStream)]` and the primitive codecs of the crate `binary_utils` are arguments.
mod Data
pub mod Codecs
pub mod Convert
pub use Data.*
unfoldable pub use Codecs.*
