-- ===== src/Protocol.antt =====
-- src/protocol/packet/handler.rs, `handle_offline` and `handle_online`, with `Connection::send_packet` and
-- `Connection::disconnect` of src/connection/conn.rs, which they call. What is only logged is left out.
pub mod Closing
pub mod Handshake
use netrex_rak_net.Prelude.{
  ℕ, ◌+◌, ◌-◌, ◌%◌, ◌^◌, String, Bool, true, false, List, [], ◌∷◌, ◌++◌, Option, none, some, ltb,
  ◌==◌, not, if◌then◌else◌, Result, ok, panic, expect, ◌>>=◌, ◌>>◌,
}
use netrex_rak_net.Address.{Resolver, from_address_token, v4}
use netrex_rak_net.Wire.{ByteOrder}
use netrex_rak_net.Queue.{SendPriority, immediate, normal, low, push, flush}
use netrex_rak_net.State
use netrex_rak_net.Server
use netrex_rak_net.Connection.{Connection, send_immediate}
use netrex_rak_net.Packet
use netrex_rak_net.Packet.{
  BinaryUtils, Packet, OnlinePacket, OfflinePacket, OpenConnectRequest, connected_ping,
  connected_pong, connection_request, connection_accept, new_connection, unconnected_ping,
  unconnected_pong, open_connect_request, open_connect_reply, session_info_request,
  session_info_reply, incompatible_protocol_version, online, offline, packet_of, is_online,
  get_online, get_offline, new_magic,
}
use netrex_rak_net.Send.{send_frame}

-- `elapsed().unwrap()`, in milliseconds: it panics where the time is still to come.
abbrev pub elapsed : ℕ → ℕ → Result ℕ
elapsed now start = if ltb now start then panic else ok (now - start)

module _ (b : ByteOrder) (u : BinaryUtils) (r : Resolver)
    (fparse : Result (List ℕ) → Result (List ℕ)) (now : ℕ) where
  -- An offline packet that is not sent at once.
  queued : Connection → List ℕ → SendPriority → Connection
  queued c bytes immediate = send_immediate c bytes
  queued c bytes normal = record c { queue = push c.queue bytes normal }
  queued c bytes low = record c { queue = push c.queue bytes normal }

  unfoldable pub send_packet : Connection → Packet → SendPriority → Result Connection
  unfolding queued
  send_packet c packet priority = expect (Packet.parse b u packet) >>= λ bytes.
      if is_online packet
      then send_frame b fparse now c bytes priority
      else ok (queued c bytes priority)

  -- `disconnect` before it notifies the other side.
  unfoldable pub closed : Connection → String → Connection
  closed c reason =
      let (queue, _) = flush c.queue in
      record c {
        event_dispatch = c.event_dispatch ++ (Server.disconnect c.address reason ∷ []);
        state = State.offline;
        ensure_disconnect = true;
        queue = record queue { frozen = true };
      }

  unfoldable pub disconnect : Connection → String → Bool → Result Connection
  disconnect c reason server_initiated =
      if server_initiated
      then send_packet (closed c reason)
          (packet_of (online (Packet.disconnect Packet.disconnect_packet))) immediate
      else ok (closed c reason)

  -- The arm of an `OpenConnectRequest`.
  unfoldable pub open_connect : Connection → OpenConnectRequest → Result Connection
  open_connect c pk =
      let incompatible = packet_of (
        offline (
          incompatible_protocol_version
            (record { protocol = pk.protocol; magic = new_magic; server_id = c.server_guid }))) in
      let reply = packet_of (
        offline (
          open_connect_reply (record {
            magic = new_magic;
            server_id = c.server_guid;
            security = false;
            mtu_size = pk.mtu_size;
          }))) in
      (if not (pk.protocol == Server.to_u8 c.raknet_version)
        then send_packet c incompatible immediate
        else ok c)
      >>= λ c'. send_packet (record c' { mtu = pk.mtu_size }) reply immediate

  unfoldable pub answer_offline : Connection → OfflinePacket → Result Connection
  answer_offline c (unconnected_ping pk) =
      let c' = record c {
        event_dispatch = c.event_dispatch ++ (Server.motd c.address c.motd ∷ []);
      } in
      elapsed now c.start_time >>= λ age.
      send_packet c'
        (packet_of (
          offline (
            unconnected_pong
              (record { timestamp = age % 2 ^ 64; server_id = c.server_guid; magic = new_magic }))))
        immediate
  answer_offline c (open_connect_request pk) = open_connect c pk
  answer_offline c (session_info_request pk) = from_address_token r c.address >>= λ address.
      send_packet (record c { mtu = pk.mtu_size; state = State.connecting })
        (packet_of (
          offline (
            session_info_reply (record {
              magic = new_magic;
              server_id = c.server_guid;
              client_address = address;
              mtu_size = pk.mtu_size;
              security = false;
            }))))
        immediate
  answer_offline c _ = ok c

  unfoldable pub handle_offline : Connection → Packet → Result Connection
  handle_offline c packet = get_offline packet >>= λ p. answer_offline c p

  -- The error of `handle_online` is text that its caller logs; here it leaves the connection as it was.
  unfoldable pub answer_online : Connection → OnlinePacket → Result Connection
  answer_online c (connected_ping pk) = elapsed now c.start_time >>= λ age.
      send_packet c
        (packet_of
          (online (connected_pong (record { ping_time = pk.time; pong_time = age % 2 ^ 64 }))))
        immediate
  answer_online c (connection_request pk) = from_address_token r c.address >>= λ address.
      elapsed now c.start_time >>= λ age.
      send_packet c
        (packet_of (
          online (
            connection_accept (record {
              client_address = address;
              system_index = 0;
              internal_id = record { ip = v4 255 255 255 255; port = 19132 };
              request_time = pk.time;
              timestamp = age % 2 ^ 64;
            }))))
        immediate
  answer_online c (Packet.disconnect _) = disconnect c "Client disconnected." false
  answer_online c (new_connection _) = ok (record c { state = State.connected })
  answer_online c _ = ok c

  unfoldable pub handle_online : Connection → Packet → Result Connection
  handle_online c packet = get_online packet >>= λ p. answer_online c p
