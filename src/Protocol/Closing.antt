-- ===== src/Protocol/Closing.antt =====
-- `disconnect` closes a connection, and no packet of the protocol opens it again.
use netrex_rak_net.Prelude.{
  ◌≡◌, ℕ, String, Bool, false, List, not, ◌==◌, refl, inl, Result, expect, Always, Always-ok,
  Always-behind, Always->>=, Always-if, Always-weaken,
}
use netrex_rak_net.Address.{Resolver, from_address_token}
use netrex_rak_net.Wire.{ByteOrder}
use netrex_rak_net.Queue.{SendPriority, immediate, normal, low, flush}
use netrex_rak_net.Reliability.{reliable_ord}
use netrex_rak_net.Server
use netrex_rak_net.Connection.{Connection, send_immediate}
use netrex_rak_net.Connection.Closed.{
  IsClosed, Follows, Follows-refl, Follows-trans, Follows-IsClosed, Follows-push, Keeps-Follows,
}
use netrex_rak_net.Packet
use netrex_rak_net.Packet.{
  BinaryUtils, Packet, OnlinePacket, OfflinePacket, OpenConnectRequest, unconnected_ping,
  open_connect_request, session_info_request, connected_ping, connection_request, new_connection,
  is_online, online, offline, get_online, get_offline,
}
use netrex_rak_net.Send.{send_frame, send_stream}
use netrex_rak_net.Send.Core.{send_framed-Keeps}
use netrex_rak_net.Protocol.{
  elapsed, queued, send_packet, closed, disconnect, open_connect, answer_offline, handle_offline,
  answer_online, handle_online,
}

module _ (b : ByteOrder) (u : BinaryUtils) (r : Resolver)
    (fparse : Result (List ℕ) → Result (List ℕ)) (now : ℕ) where
  pub send_frame-Follows :
      (c : Connection) (stream : List ℕ) (priority : SendPriority)
      → Always (λ d. Follows c d) (send_frame b fparse now c stream priority)
  unfolding send_frame
  send_frame-Follows c stream immediate =
      Keeps-Follows c (send_framed-Keeps b fparse now c stream reliable_ord)
  send_frame-Follows c stream normal = Always-ok (Follows-push c stream normal)
  send_frame-Follows c stream low = Always-ok (Follows-push c stream low)

  pub send_stream-Follows :
      (c : Connection) (stream : List ℕ) (priority : SendPriority)
      → Always (λ d. Follows c d) (send_stream b fparse now c stream priority)
  unfolding send_stream
  send_stream-Follows c stream immediate =
      Keeps-Follows c (send_framed-Keeps b fparse now c stream reliable_ord)
  send_stream-Follows c stream normal = Always-ok (Follows-push c stream normal)
  send_stream-Follows c stream low = Always-ok (Follows-push c stream low)

  queued-Follows :
      (c : Connection) (bytes : List ℕ) (priority : SendPriority)
      → Follows c (queued b u r fparse now c bytes priority)
  unfolding queued send_immediate
  queued-Follows c bytes immediate = Follows-refl c
  queued-Follows c bytes normal = Follows-push c bytes normal
  queued-Follows c bytes low = Follows-push c bytes normal

  pub send_packet-Follows :
      (c : Connection) (packet : Packet) (priority : SendPriority)
      → Always (λ d. Follows c d) (send_packet b u r fparse now c packet priority)
  unfolding send_packet
  send_packet-Follows c packet priority = Always-behind (expect (Packet.parse b u packet)) λ bytes.
      Always-if (is_online packet) (send_frame-Follows c bytes priority)
        (Always-ok (queued-Follows c bytes priority))

  pub closed-IsClosed :
      (c : Connection) (reason : String) → IsClosed (closed b u r fparse now c reason)
  unfolding closed flush
  closed-IsClosed c reason = (refl, refl)

  -- The address stays, and the connection is closed.
  pub disconnect-IsClosed :
      (c : Connection) (reason : String) (server_initiated : Bool)
      → Always
          (λ d. (d.address ≡ c.address) × IsClosed d)
          (disconnect b u r fparse now c reason server_initiated)
  unfolding disconnect closed
  disconnect-IsClosed c reason server_initiated =
      let shut = closed b u r fparse now c reason in
      let is = closed-IsClosed c reason in
      Always-if server_initiated
        (Always-weaken (send_packet-Follows shut _ immediate)
          λ d f. (f.0, Follows-IsClosed shut d is f))
        (Always-ok (refl, is))

  pub disconnect-Follows :
      (c : Connection) (reason : String) (server_initiated : Bool)
      → Always (λ d. Follows c d) (disconnect b u r fparse now c reason server_initiated)
  disconnect-Follows c reason server_initiated =
      Always-weaken (disconnect-IsClosed c reason server_initiated) λ d is. (is.0, inl is.1)

  open_connect-Follows :
      (c : Connection) (pk : OpenConnectRequest)
      → Always (λ d. Follows c d) (open_connect b u r fparse now c pk)
  unfolding open_connect
  open_connect-Follows c pk =
      Always->>= {P = λ d. Follows c d} _
        (Always-if (not (pk.protocol == Server.to_u8 c.raknet_version))
          (send_packet-Follows c _ immediate) (Always-ok (Follows-refl c)))
        λ d f.
          Always-weaken (send_packet-Follows (record d { mtu = pk.mtu_size }) _ immediate)
            λ e g. Follows-trans c d e f g

  answer_offline-Follows :
      (c : Connection) (packet : OfflinePacket)
      → Always (λ d. Follows c d) (answer_offline b u r fparse now c packet)
  unfolding answer_offline
  answer_offline-Follows c (unconnected_ping pk) =
      Always-behind (elapsed now c.start_time) λ age. send_packet-Follows _ _ immediate
  answer_offline-Follows c (open_connect_request pk) = open_connect-Follows c pk
  answer_offline-Follows c (session_info_request pk) =
      Always-behind (from_address_token r c.address) λ address. send_packet-Follows _ _ immediate
  answer_offline-Follows c _ = Always-ok (Follows-refl c)

  pub handle_offline-Follows :
      (c : Connection) (packet : Packet)
      → Always (λ d. Follows c d) (handle_offline b u r fparse now c packet)
  unfolding handle_offline
  handle_offline-Follows c packet =
      Always-behind (get_offline packet) λ p. answer_offline-Follows c p

  answer_online-Follows :
      (c : Connection) (packet : OnlinePacket)
      → Always (λ d. Follows c d) (answer_online b u r fparse now c packet)
  unfolding answer_online
  answer_online-Follows c (connected_ping pk) =
      Always-behind (elapsed now c.start_time) λ age. send_packet-Follows c _ immediate
  answer_online-Follows c (connection_request pk) =
      Always-behind (from_address_token r c.address)
        λ address. Always-behind (elapsed now c.start_time) λ age. send_packet-Follows c _ immediate
  answer_online-Follows c (Packet.disconnect _) = disconnect-Follows c _ false
  answer_online-Follows c (new_connection _) = Always-ok (Follows-refl c)
  answer_online-Follows c _ = Always-ok (Follows-refl c)

  pub handle_online-Follows :
      (c : Connection) (packet : Packet)
      → Always (λ d. Follows c d) (handle_online b u r fparse now c packet)
  unfolding handle_online
  handle_online-Follows c packet = Always-behind (get_online packet) λ p. answer_online-Follows c p
