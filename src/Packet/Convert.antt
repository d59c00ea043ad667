-- ===== src/Packet/Convert.antt =====
-- src/protocol/packet/mod.rs, `register_packets!` and the `From` of packets and payloads: the
-- conversions between a packet, its kind, `Packet` and `Payload`. A conversion to the wrong type panics.
use netrex_rak_net.Prelude.{Option, none, some, Result, unwrap, ◌>>=◌}
use netrex_rak_net.Packet.Data.{
  OnlinePacket, OfflinePacket, Payload, online, offline, Packet, packet_of, ConnectedPing,
  ConnectedPong, ConnectionRequest, ConnectionAccept, NewConnection, Disconnect, UnconnectedPing,
  UnconnectedPong, OpenConnectRequest, OpenConnectReply, SessionInfoRequest, SessionInfoReply,
  IncompatibleProtocolVersion, connected_ping, connected_pong, connection_request,
  connection_accept, new_connection, disconnect, unconnected_ping, unconnected_pong,
  open_connect_request, open_connect_reply, session_info_request, session_info_reply,
  incompatible_protocol_version,
}

-- `From<OnlinePacket> for Payload`, and that of the offline packets.
abbrev pub payload_of_online : OnlinePacket → Payload
payload_of_online p = online p

abbrev pub payload_of_offline : OfflinePacket → Payload
payload_of_offline p = offline p

-- A kind of packets: `Payload::$name`, and its `match`.
pub record Kind (K : Type 0) : Type 0 where
  pub wrap : K → Payload
  pub unwrapped : Payload → Option K

abbrev pub online_kind : Kind OnlinePacket
online_kind = record {
  wrap = payload_of_online;
  unwrapped = λ p. elim p [ online k ↦ some k | offline _ ↦ none ];
}

abbrev pub offline_kind : Kind OfflinePacket
offline_kind = record {
  wrap = payload_of_offline;
  unwrapped = λ p. elim p [ online _ ↦ none | offline k ↦ some k ];
}

-- A line of `register_packets!`: the constructor of the kind, and its `match`.
pub record Registered (K A : Type 0) : Type 0 where
  pub kind : Kind K
  pub make : A → K
  pub matched : K → Option A

module _ {K A : Type 0} (g : Registered K A) where
  -- `From<$packet> for $kind`.
  unfoldable pub into_kind : A → K
  into_kind a = g.make a

  -- `From<$kind> for $packet`.
  unfoldable pub from_kind : K → Result A
  from_kind k = unwrap (g.matched k)

  -- `From<$packet> for Packet`.
  unfoldable pub into_packet : A → Packet
  unfolding into_kind
  into_packet a = packet_of (g.kind.wrap (into_kind a))

  -- `From<$packet> for Payload`.
  unfoldable pub into_payload : A → Payload
  unfolding into_kind
  into_payload a = g.kind.wrap (into_kind a)

  -- `From<Payload> for $packet`.
  unfoldable pub from_payload : Payload → Result A
  unfolding from_kind
  from_payload p = unwrap (g.kind.unwrapped p) >>= λ k. from_kind k

abbrev pub connected_ping_packet : Registered OnlinePacket ConnectedPing
connected_ping_packet = record {
  kind = online_kind;
  make = connected_ping;
  matched = λ k. elim k [ connected_ping p ↦ some p | _ ↦ none ];
}

abbrev pub connected_pong_packet : Registered OnlinePacket ConnectedPong
connected_pong_packet = record {
  kind = online_kind;
  make = connected_pong;
  matched = λ k. elim k [ connected_pong p ↦ some p | _ ↦ none ];
}

abbrev pub connection_request_packet : Registered OnlinePacket ConnectionRequest
connection_request_packet = record {
  kind = online_kind;
  make = connection_request;
  matched = λ k. elim k [ connection_request p ↦ some p | _ ↦ none ];
}

abbrev pub connection_accept_packet : Registered OnlinePacket ConnectionAccept
connection_accept_packet = record {
  kind = online_kind;
  make = connection_accept;
  matched = λ k. elim k [ connection_accept p ↦ some p | _ ↦ none ];
}

abbrev pub new_connection_packet : Registered OnlinePacket NewConnection
new_connection_packet = record {
  kind = online_kind;
  make = new_connection;
  matched = λ k. elim k [ new_connection p ↦ some p | _ ↦ none ];
}

abbrev pub disconnect_packet : Registered OnlinePacket Disconnect
disconnect_packet = record {
  kind = online_kind;
  make = disconnect;
  matched = λ k. elim k [ disconnect p ↦ some p | _ ↦ none ];
}

abbrev pub unconnected_ping_packet : Registered OfflinePacket UnconnectedPing
unconnected_ping_packet = record {
  kind = offline_kind;
  make = unconnected_ping;
  matched = λ k. elim k [ unconnected_ping p ↦ some p | _ ↦ none ];
}

abbrev pub unconnected_pong_packet : Registered OfflinePacket UnconnectedPong
unconnected_pong_packet = record {
  kind = offline_kind;
  make = unconnected_pong;
  matched = λ k. elim k [ unconnected_pong p ↦ some p | _ ↦ none ];
}

abbrev pub open_connect_request_packet : Registered OfflinePacket OpenConnectRequest
open_connect_request_packet = record {
  kind = offline_kind;
  make = open_connect_request;
  matched = λ k. elim k [ open_connect_request p ↦ some p | _ ↦ none ];
}

abbrev pub open_connect_reply_packet : Registered OfflinePacket OpenConnectReply
open_connect_reply_packet = record {
  kind = offline_kind;
  make = open_connect_reply;
  matched = λ k. elim k [ open_connect_reply p ↦ some p | _ ↦ none ];
}

abbrev pub session_info_request_packet : Registered OfflinePacket SessionInfoRequest
session_info_request_packet = record {
  kind = offline_kind;
  make = session_info_request;
  matched = λ k. elim k [ session_info_request p ↦ some p | _ ↦ none ];
}

abbrev pub session_info_reply_packet : Registered OfflinePacket SessionInfoReply
session_info_reply_packet = record {
  kind = offline_kind;
  make = session_info_reply;
  matched = λ k. elim k [ session_info_reply p ↦ some p | _ ↦ none ];
}

abbrev pub incompatible_protocol_version_packet :
    Registered OfflinePacket IncompatibleProtocolVersion
incompatible_protocol_version_packet = record {
  kind = offline_kind;
  make = incompatible_protocol_version;
  matched = λ k. elim k [ incompatible_protocol_version p ↦ some p | _ ↦ none ];
}
