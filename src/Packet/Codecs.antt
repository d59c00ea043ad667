-- ===== src/Packet/Codecs.antt =====
-- src/protocol/packet/mod.rs, online.rs and offline.rs, with src/protocol/util.rs: the bytes of the packets.
pub mod RoundTrip
pub mod Unknown
pub mod Reference
use Prim.Native.String
use netrex_rak_net.Prelude
use netrex_rak_net.Prelude.{
  ℕ, zero, suc, ◌+◌, ◌%◌, ◌^◌, true, false, List, [], ◌∷◌, ◌++◌, length, ◌==◌, if◌then◌else◌, Bool,
  Result, ok, err, panic, recoverable_known,
}
use netrex_rak_net.Decimal.{to_string}
use netrex_rak_net.Address.{SocketAddr, v4}
use netrex_rak_net.Wire.{ByteOrder, Reader, ◌>>=◌, done, read_slice}
use netrex_rak_net.Packet.Data.{
  magic_bytes, Magic, ConnectedPing, ConnectedPong, ConnectionRequest, ConnectionAccept,
  NewConnection, Disconnect, LostConnection, OnlinePacket, connected_ping, connected_pong,
  lost_connection, connection_request, connection_accept, new_connection, disconnect,
  UnconnectedPing, UnconnectedPong, OpenConnectRequest, OpenConnectReply, SessionInfoRequest,
  SessionInfoReply, IncompatibleProtocolVersion, OfflinePacket, unconnected_ping,
  open_connect_request, open_connect_reply, session_info_request, session_info_reply,
  unconnected_pong, incompatible_protocol_version, Payload, online, offline, Packet,
  connected_ping_id, connected_pong_id, lost_connection_id, connection_request_id,
  connection_accept_id, new_connection_id, disconnect_id, unconnected_ping_id,
  open_connect_request_id, open_connect_reply_id, session_info_request_id, session_info_reply_id,
  unconnected_pong_id, incompatible_protocol_version_id,
}

-- `Streamable` for one type.
pub record Codec (A : Type 0) : Type 0 where
  pub compose : Reader A
  pub parse : A → Result (List ℕ)

-- What `binary_utils` gives: the codecs that it derives, and those of `u8` and `SocketAddr`.
pub record BinaryUtils : Type 0 where
  pub u8 : Codec ℕ
  pub socket_addr : Codec SocketAddr
  pub connected_ping_codec : Codec ConnectedPing
  pub connected_pong_codec : Codec ConnectedPong
  pub lost_connection_codec : Codec LostConnection
  pub connection_request_codec : Codec ConnectionRequest
  pub new_connection_codec : Codec NewConnection
  pub disconnect_codec : Codec Disconnect
  pub unconnected_ping_codec : Codec UnconnectedPing
  pub unconnected_pong_codec : Codec UnconnectedPong
  pub open_connect_reply_codec : Codec OpenConnectReply
  pub session_info_request_codec : Codec SessionInfoRequest
  pub session_info_reply_codec : Codec SessionInfoReply
  pub incompatible_protocol_version_codec : Codec IncompatibleProtocolVersion

is_magic : List ℕ → List ℕ → Bool
is_magic [] [] = true
is_magic (x ∷ xs) (y ∷ ys) = if x == y then is_magic xs ys else false
is_magic _ _ = false

-- `Magic::compose`: the slice of 16 bytes must be there, and be `MAGIC`.
unfoldable pub compose_magic : Reader Magic
unfolding is_magic
compose_magic = read_slice 16 >>= λ magic source position.
    if is_magic magic magic_bytes
    then ok (record { bytes = magic }, position)
    else err (recoverable_known "Could not construct magic from malformed bytes.")

-- `Magic::parse` does not look at the value.
abbrev pub parse_magic : Magic → Result (List ℕ)
parse_magic m = ok magic_bytes

zeros : ℕ → List ℕ
zeros zero = []
zeros (suc n) = 0 ∷ zeros n

-- `stream.write_all` of the same bytes, a number of times.
times : ℕ → List ℕ → List ℕ
times zero bytes = []
times (suc n) bytes = bytes ++ times n bytes

module _ (b : ByteOrder) (u : BinaryUtils) where
  -- `OpenConnectRequest::compose`: the size is that of the whole source and 29 more, as a `u16`.
  compose_open_connect_request : Reader OpenConnectRequest
  compose_open_connect_request = compose_magic >>= λ magic.
      u.u8.compose >>= λ protocol source position. ok (
        record { magic = magic; protocol = protocol; mtu_size = (length source + 1 + 28) % 2 ^ 16 },
        position,
      )

  parse_open_connect_request : OpenConnectRequest → Result (List ℕ)
  unfolding zeros
  parse_open_connect_request p =
      Prelude.◌>>=◌ (parse_magic p.magic) λ magic. ok (magic ++ (p.protocol ∷ zeros p.mtu_size))

  parse_connection_accept : ConnectionAccept → Result (List ℕ)
  unfolding times
  parse_connection_accept p = Prelude.◌>>=◌ (u.socket_addr.parse p.client_address) λ client.
      Prelude.◌>>=◌ (u.socket_addr.parse p.internal_id) λ internal. ok (
        client
        ++ (b.put_i16_be p.system_index
            ++ (times 10 internal ++ (b.put_i64_be p.request_time ++ b.put_i64_be p.timestamp))))

  -- `ConnectionAccept::compose` reads nothing.
  compose_connection_accept : Reader ConnectionAccept
  compose_connection_accept = done (record {
    client_address = record { ip = v4 192 168 0 1; port = 9120 };
    system_index = 0;
    internal_id = record { ip = v4 127 0 0 1; port = 1920 };
    request_time = 0;
    timestamp = 0;
  })

  compose_online : {A : Type 0} → (A → OnlinePacket) → Reader A → Reader Payload
  compose_online make m = m >>= λ p. done (online (make p))

  compose_offline : {A : Type 0} → (A → OfflinePacket) → Reader A → Reader Payload
  compose_offline make m = m >>= λ p. done (offline (make p))

  -- The arms of `Payload::compose`, in their order.
  compose_by_id : ℕ → Reader Payload
  unfolding compose_online compose_offline compose_open_connect_request compose_connection_accept
  compose_by_id id =
      if id == unconnected_ping_id
      then compose_offline unconnected_ping u.unconnected_ping_codec.compose
      else if id == unconnected_pong_id
      then compose_offline unconnected_pong u.unconnected_pong_codec.compose
      else if id == open_connect_request_id
      then compose_offline open_connect_request compose_open_connect_request
      else if id == open_connect_reply_id
      then compose_offline open_connect_reply u.open_connect_reply_codec.compose
      else if id == session_info_request_id
      then compose_offline session_info_request u.session_info_request_codec.compose
      else if id == session_info_reply_id
      then compose_offline session_info_reply u.session_info_reply_codec.compose
      else if id == incompatible_protocol_version_id
      then compose_offline incompatible_protocol_version
          u.incompatible_protocol_version_codec.compose
      else if id == connected_ping_id
      then compose_online connected_ping u.connected_ping_codec.compose
      else if id == connected_pong_id
      then compose_online connected_pong u.connected_pong_codec.compose
      else if id == lost_connection_id
      then compose_online lost_connection u.lost_connection_codec.compose
      else if id == connection_request_id
      then compose_online connection_request u.connection_request_codec.compose
      else if id == connection_accept_id
      then compose_online connection_accept compose_connection_accept
      else if id == new_connection_id
      then compose_online new_connection u.new_connection_codec.compose
      else if id == disconnect_id
      then compose_online disconnect u.disconnect_codec.compose
      else (λ source position.
          err (recoverable_known (String.◌++◌ "Id is not a valid raknet packet: " (to_string id))))

  unfoldable pub compose_payload : Reader Payload
  unfolding compose_by_id
  compose_payload = u.u8.compose >>= λ id. compose_by_id id

  parse_online : OnlinePacket → Result (List ℕ)
  parse_online (connected_ping p) = u.connected_ping_codec.parse p
  parse_online (connected_pong p) = u.connected_pong_codec.parse p
  parse_online (lost_connection p) = u.lost_connection_codec.parse p
  parse_online (connection_request p) = u.connection_request_codec.parse p
  parse_online (connection_accept p) = parse_connection_accept p
  parse_online (new_connection p) = u.new_connection_codec.parse p
  parse_online (disconnect p) = u.disconnect_codec.parse p

  parse_offline : OfflinePacket → Result (List ℕ)
  parse_offline (unconnected_ping p) = u.unconnected_ping_codec.parse p
  parse_offline (unconnected_pong p) = u.unconnected_pong_codec.parse p
  parse_offline (open_connect_request p) = parse_open_connect_request p
  parse_offline (open_connect_reply p) = u.open_connect_reply_codec.parse p
  parse_offline (session_info_request p) = u.session_info_request_codec.parse p
  parse_offline (session_info_reply p) = u.session_info_reply_codec.parse p
  parse_offline (incompatible_protocol_version p) = u.incompatible_protocol_version_codec.parse p

  unfoldable pub parse_payload : Payload → Result (List ℕ)
  unfolding parse_online parse_offline parse_open_connect_request parse_connection_accept
  parse_payload (online p) = parse_online p
  parse_payload (offline p) = parse_offline p

  -- The id is `source[0]`, wherever the packet starts.
  unfoldable pub compose : Reader Packet
  compose = compose_payload >>= λ payload source position. elim source [
    | [] ↦ panic
    | id ∷ _ ↦ ok (record { id = id; payload = payload }, position)
  ]

  unfoldable pub parse : Packet → Result (List ℕ)
  parse p = Prelude.◌>>=◌ (parse_payload p.payload) λ bytes. ok (p.id ∷ bytes)
