-- ===== src/Packet/Data.antt =====
-- src/protocol/packet/online.rs, offline.rs and mod.rs, with src/protocol/util.rs: the packets.
use netrex_rak_net.Prelude.{ℕ, Bool, true, false, not, List, [], ◌∷◌, Result, ok, panic}
use netrex_rak_net.Address.{SocketAddr}

-- `MAGIC` of src/lib.rs.
abbrev pub magic_bytes : List ℕ
magic_bytes =
    0x00 ∷ 0xff ∷ 0xff ∷ 0x00 ∷ 0xfe ∷ 0xfe ∷ 0xfe ∷ 0xfe ∷ 0xfd ∷ 0xfd ∷ 0xfd ∷ 0xfd ∷ 0x12 ∷ 0x34
    ∷ 0x56 ∷ 0x78 ∷ []

pub record Magic : Type 0 where
  pub bytes : List ℕ

-- `Magic::new`.
abbrev pub new_magic : Magic
new_magic = record { bytes = magic_bytes }

pub record ConnectedPing : Type 0 where
  pub time : ℕ

pub record ConnectedPong : Type 0 where
  pub ping_time : ℕ
  pub pong_time : ℕ

pub record ConnectionRequest : Type 0 where
  pub client_id : ℕ
  pub time : ℕ

pub record ConnectionAccept : Type 0 where
  pub client_address : SocketAddr
  pub system_index : ℕ
  pub internal_id : SocketAddr
  pub request_time : ℕ
  pub timestamp : ℕ

pub record NewConnection : Type 0 where
  pub server_address : SocketAddr
  pub system_address : SocketAddr
  pub request_time : ℕ
  pub timestamp : ℕ

-- `Disconnect` and `LostConnection` have no fields.
pub data Disconnect : Type 0 where
  disconnect_packet : Disconnect

pub data LostConnection : Type 0 where
  lost_connection_packet : LostConnection

pub data OnlinePacket : Type 0 where
  connected_ping : ConnectedPing → OnlinePacket
  connected_pong : ConnectedPong → OnlinePacket
  lost_connection : LostConnection → OnlinePacket
  connection_request : ConnectionRequest → OnlinePacket
  connection_accept : ConnectionAccept → OnlinePacket
  new_connection : NewConnection → OnlinePacket
  disconnect : Disconnect → OnlinePacket

pub record UnconnectedPing : Type 0 where
  pub timestamp : ℕ
  pub magic : Magic
  pub client_id : ℕ

pub record UnconnectedPong : Type 0 where
  pub timestamp : ℕ
  pub server_id : ℕ
  pub magic : Magic

pub record OpenConnectRequest : Type 0 where
  pub magic : Magic
  pub protocol : ℕ
  pub mtu_size : ℕ

pub record OpenConnectReply : Type 0 where
  pub magic : Magic
  pub server_id : ℕ
  pub security : Bool
  pub mtu_size : ℕ

pub record SessionInfoRequest : Type 0 where
  pub magic : Magic
  pub address : SocketAddr
  pub mtu_size : ℕ
  pub client_id : ℕ

pub record SessionInfoReply : Type 0 where
  pub magic : Magic
  pub server_id : ℕ
  pub client_address : SocketAddr
  pub mtu_size : ℕ
  pub security : Bool

pub record IncompatibleProtocolVersion : Type 0 where
  pub protocol : ℕ
  pub magic : Magic
  pub server_id : ℕ

pub data OfflinePacket : Type 0 where
  unconnected_ping : UnconnectedPing → OfflinePacket
  open_connect_request : OpenConnectRequest → OfflinePacket
  open_connect_reply : OpenConnectReply → OfflinePacket
  session_info_request : SessionInfoRequest → OfflinePacket
  session_info_reply : SessionInfoReply → OfflinePacket
  unconnected_pong : UnconnectedPong → OfflinePacket
  incompatible_protocol_version : IncompatibleProtocolVersion → OfflinePacket

pub data Payload : Type 0 where
  online : OnlinePacket → Payload
  offline : OfflinePacket → Payload

pub record Packet : Type 0 where
  pub id : ℕ
  pub payload : Payload

-- `packet_id!` of each packet: what its `id` returns.
abbrev pub connected_ping_id : ℕ
connected_ping_id = 0x00

abbrev pub connected_pong_id : ℕ
connected_pong_id = 0x03

abbrev pub lost_connection_id : ℕ
lost_connection_id = 0x04

abbrev pub connection_request_id : ℕ
connection_request_id = 0x09

abbrev pub connection_accept_id : ℕ
connection_accept_id = 0x10

abbrev pub new_connection_id : ℕ
new_connection_id = 0x13

abbrev pub disconnect_id : ℕ
disconnect_id = 0x15

abbrev pub unconnected_ping_id : ℕ
unconnected_ping_id = 0x01

abbrev pub open_connect_request_id : ℕ
open_connect_request_id = 0x05

abbrev pub open_connect_reply_id : ℕ
open_connect_reply_id = 0x06

abbrev pub session_info_request_id : ℕ
session_info_request_id = 0x07

abbrev pub session_info_reply_id : ℕ
session_info_reply_id = 0x08

abbrev pub unconnected_pong_id : ℕ
unconnected_pong_id = 0x1c

abbrev pub incompatible_protocol_version_id : ℕ
incompatible_protocol_version_id = 0x19

-- `get_id` of each packet.
abbrev pub online_id : OnlinePacket → ℕ
online_id (connected_ping _) = connected_ping_id
online_id (connected_pong _) = connected_pong_id
online_id (lost_connection _) = lost_connection_id
online_id (connection_request _) = connection_request_id
online_id (connection_accept _) = connection_accept_id
online_id (new_connection _) = new_connection_id
online_id (disconnect _) = disconnect_id

abbrev pub offline_id : OfflinePacket → ℕ
offline_id (unconnected_ping _) = unconnected_ping_id
offline_id (open_connect_request _) = open_connect_request_id
offline_id (open_connect_reply _) = open_connect_reply_id
offline_id (session_info_request _) = session_info_request_id
offline_id (session_info_reply _) = session_info_reply_id
offline_id (unconnected_pong _) = unconnected_pong_id
offline_id (incompatible_protocol_version _) = incompatible_protocol_version_id

abbrev pub payload_id : Payload → ℕ
payload_id (online p) = online_id p
payload_id (offline p) = offline_id p

-- `From` of `register_packets!`: a packet under its id.
abbrev pub packet_of : Payload → Packet
packet_of p = record { id = payload_id p; payload = p }

abbrev pub is_online : Packet → Bool
is_online p = elim p.payload [ online _ ↦ true | offline _ ↦ false ]

abbrev pub is_offline : Packet → Bool
is_offline p = not (is_online p)

-- `From<Packet>` of the two kinds.
abbrev pub online_of : Packet → Result OnlinePacket
online_of p = elim p.payload [ online x ↦ ok x | offline _ ↦ panic ]

abbrev pub offline_of : Packet → Result OfflinePacket
offline_of p = elim p.payload [ online _ ↦ panic | offline x ↦ ok x ]

abbrev pub get_online : Packet → Result OnlinePacket
get_online p = online_of p

abbrev pub get_offline : Packet → Result OfflinePacket
get_offline p = offline_of p
