-- ===== src/Link/Handshake/Opens.antt =====
-- The two packets of a handshake that come without frames.
use netrex_rak_net.Prelude.{
  ℕ, ◌+◌, ◌%◌, ◌^◌, ◌<◌, ◌≡◌, refl, true, List, [], ◌∷◌, ◌++◌, ◌==◌, ==_refl, Result, ok, arith,
}
use netrex_rak_net.Address.{Resolver, SocketAddr, from_address_token}
use netrex_rak_net.Wire.{ByteOrder}
use netrex_rak_net.State
use netrex_rak_net.Server
use netrex_rak_net.Connection.{Connection}
use netrex_rak_net.Packet
use netrex_rak_net.Packet.{
  BinaryUtils, Packet, Payload, OnlinePacket, OfflinePacket, OpenConnectRequest, SessionInfoRequest,
  ConnectionRequest, ConnectionAccept, NewConnection, new_magic, packet_of, payload_id, online,
  offline, open_connect_request, session_info_request, session_info_reply, connection_request,
  connection_accept, new_connection,
}
use netrex_rak_net.Packet.Codecs.RoundTrip.{IsBinaryUtils, Fits}
use netrex_rak_net.Protocol.Handshake.{
  reply, session_reply, handle_offline_request, handle_offline_session,
}
use netrex_rak_net.Receive.{recv}
use netrex_rak_net.Link.Packets.{written-read, recv-offline}

same_version :
    (c : Connection) (connect : OpenConnectRequest)
    → connect.protocol ≡ Server.to_u8 c.raknet_version
    → (connect.protocol == Server.to_u8 c.raknet_version) ≡ true
same_version c connect e = rw e (==_refl (Server.to_u8 c.raknet_version))

-- The connection behind the first two datagrams.
abbrev pub greeted : Connection → ℕ → OpenConnectRequest → List ℕ → Connection
greeted c now connect replied = record c {
  recv_time = now;
  mtu = (connect.mtu_size + 47) % 2 ^ 16;
  sent = c.sent ++ ((c.address, replied) ∷ []);
}

abbrev pub joining : Connection → ℕ → SessionInfoRequest → List ℕ → List ℕ → Connection
joining c now session replied informed = record c {
  recv_time = now;
  mtu = session.mtu_size;
  state = State.connecting;
  sent = (c.sent ++ ((c.address, replied) ∷ [])) ++ ((c.address, informed) ∷ []);
}

-- The request as it is read.
abbrev seen : OpenConnectRequest → OpenConnectRequest
seen connect = record connect { mtu_size = (connect.mtu_size + 47) % 2 ^ 16 }

module _ (b : ByteOrder) (u : BinaryUtils) (r : Resolver)
    (fparse : Result (List ℕ) → Result (List ℕ)) (laws : IsBinaryUtils u) where
  -- The two offline packets.
  pub opens :
      (now1 now2 : ℕ) (c : Connection) (connect : OpenConnectRequest) (session : SessionInfoRequest)
      (address : SocketAddr) (d1 d2 : List ℕ)
      → c.state ≡ State.unidentified
      → c.server_guid < 2 ^ 64
      → from_address_token r c.address ≡ ok address
      → connect.protocol ≡ Server.to_u8 c.raknet_version
      → Fits (offline (open_connect_request connect))
      → Packet.parse b u (packet_of (offline (open_connect_request connect))) ≡ ok d1
      → Fits (offline (session_info_request session))
      → Packet.parse b u (packet_of (offline (session_info_request session))) ≡ ok d2
      → (replied informed : List ℕ) × (recv b u r fparse now1 c d1
          ≡ ok (greeted c now1 connect replied))
        × (recv b u r fparse now2 (greeted c now1 connect replied) d2
            ≡ ok (joining c now2 session replied informed))
        × (Packet.parse b u (packet_of (reply c (seen connect))) ≡ ok replied)
        × (Packet.parse b u (packet_of (session_reply c session address)) ≡ ok informed)
  unfolding State.is_reliable
  opens now1 now2 c connect session address d1 d2 new guid at version fits1 written1 fits2
        written2 =
      let (end1, read1) =
        written-read b u r fparse now1 laws (offline (open_connect_request connect)) d1 fits1
          written1 in
      let (end2, read2) =
        written-read b u r fparse now2 laws (offline (session_info_request session)) d2 fits2
          written2 in
      let (refused, replied, _, replies, run1) =
        handle_offline_request b u r fparse now1 laws (record c { recv_time = now1 }) (seen connect)
          fits1.1 (omega arith) guid in
      let c1 = greeted c now1 connect replied in
      let (informed, informs, run2) =
        handle_offline_session b u r fparse now2 laws (record c1 { recv_time = now2 }) session
          address fits2.1 guid at in
      (
        replied,
        informed,
        recv-offline b u r fparse now1 laws c c1 (open_connect_request (seen connect)) d1 end1 read1
            (rw (same_version c connect version) at run1) (rw new refl),
        recv-offline b u r fparse now2 laws c1 (joining c now2 session replied informed)
            (session_info_request session) d2 end2 read2 run2 refl,
        replies,
        informs,
      )
