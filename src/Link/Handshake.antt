-- ===== src/Link/Handshake.antt =====
-- The handshake of a client, datagram by datagram, at the connection that the server makes for it.
pub mod Opens
pub mod Joins
use netrex_rak_net.Prelude.{
  ℕ, ◌+◌, ◌-◌, ◌%◌, ◌^◌, ◌<◌, ◌≤◌, ◌≡◌, refl, sym, ap, subst, ◌∙◌, true, List, [], ◌∷◌, ◌++◌,
  length, le→ltb, ◌==◌, ==_refl, Result, ok, arith,
}
use netrex_rak_net.Address.{Resolver, SocketAddr, from_address_token, v4}
use netrex_rak_net.Wire.{ByteOrder, IsByteOrder}
use netrex_rak_net.Reliability.{reliable_ord}
use netrex_rak_net.State
use netrex_rak_net.Server
use netrex_rak_net.Queue.{immediate}
use netrex_rak_net.Meta.{index_at, next_seq, next_order_index, next_reliable_index}
use netrex_rak_net.Meta.Counters.{HasRoom}
use netrex_rak_net.Connection.{Connection, send_immediate}
use netrex_rak_net.Packet
use netrex_rak_net.Packet.{
  BinaryUtils, Packet, Payload, OnlinePacket, OfflinePacket, OpenConnectRequest, SessionInfoRequest,
  ConnectionRequest, ConnectionAccept, NewConnection, new_magic, packet_of, payload_id, online,
  offline, open_connect_request, session_info_request, session_info_reply, connection_request,
  connection_accept, new_connection,
}
use netrex_rak_net.Packet.Codecs.RoundTrip.{IsBinaryUtils, Fits}
use netrex_rak_net.Protocol.{elapsed, send_packet, answer_online}
use netrex_rak_net.Protocol.Handshake.{
  reply, session_reply, handle_offline_request, handle_offline_session,
}
use netrex_rak_net.Receive.{recv}
use netrex_rak_net.Send.Delivered.{after}
use netrex_rak_net.Send.{send_framed, send_frame}
use netrex_rak_net.Link.Received.{Carries, settled}
use netrex_rak_net.Link.Packets.{
  entered, insert_start, written-read, recv-offline, recv-Carries_online,
}
use netrex_rak_net.Link.Sent.{send_framed_carries}
use netrex_rak_net.Link.Handshake.Opens.{greeted, joining, opens}
use netrex_rak_net.Link.Handshake.Joins.{acceptance, joins}

module _ (b : ByteOrder) (u : BinaryUtils) (r : Resolver)
    (fparse : Result (List ℕ) → Result (List ℕ)) where
  -- A connection that is unidentified, whose address can be read, whose guid fits 64 bits and whose
  -- counters have room, receives the four datagrams of a client's handshake, the third not before its
  -- start: an `OpenConnectRequest` of the server's version, a `SessionInfoRequest`, and, each in an
  -- ordered frame under an order index of its window, a `ConnectionRequest` and a `NewConnection`, all
  -- with numbers that fit their types, and the magic, if there is one, of the protocol. The
  -- `ConnectionAccept` is shorter than 8 KiB, and by 70 bytes at least than the size in the
  -- `SessionInfoRequest`. Then every call of `recv` returns. Behind the second the state is connecting and
  -- that size is the MTU; behind the last the state is connected. The connection has sent three packets
  -- more, one for each of the first three datagrams: an `OpenConnectReply` with the size as it was read, a
  -- `SessionInfoReply`, and a datagram with the `ConnectionAccept`. The user is told nothing.
  pub handshake_connects :
      (now1 now2 now3 now4 : ℕ) (c : Connection) (connect : OpenConnectRequest)
      (session : SessionInfoRequest) (request : ConnectionRequest) (arrival : NewConnection)
      (address : SocketAddr) (d1 d2 d3 d4 requesting arriving accepting : List ℕ)
      → IsByteOrder b
      → IsBinaryUtils u
      → ((bs : List ℕ) → fparse (ok bs) ≡ ok bs)
      → c.state ≡ State.unidentified
      → HasRoom 1 c.rakhandler
      → c.server_guid < 2 ^ 64
      → from_address_token r c.address ≡ ok address
      → c.start_time ≤ now3
      → connect.protocol ≡ Server.to_u8 c.raknet_version
      → Fits (offline (open_connect_request connect))
      → Packet.parse b u (packet_of (offline (open_connect_request connect))) ≡ ok d1
      → Fits (offline (session_info_request session))
      → Packet.parse b u (packet_of (offline (session_info_request session))) ≡ ok d2
      → Fits (online (connection_request request))
      → Packet.parse b u (packet_of (online (connection_request request))) ≡ ok requesting
      → Carries b c.rakhandler.ordered_channels.scope.0 d3 requesting
      → Fits (online (new_connection arrival))
      → Packet.parse b u (packet_of (online (new_connection arrival))) ≡ ok arriving
      → Carries b c.rakhandler.ordered_channels.scope.0 d4 arriving
      → Packet.parse b u
          (packet_of (online (connection_accept (acceptance c now3 address request))))
        ≡ ok accepting
      → length accepting + 70 ≤ session.mtu_size
      → length accepting < 8192
      → (c1 c2 c3 c4 : Connection) × (replied informed accepted : List ℕ) × (recv b u r fparse now1
            c d1
          ≡ ok c1)
        × (recv b u r fparse now2 c1 d2 ≡ ok c2)
        × (recv b u r fparse now3 c2 d3 ≡ ok c3)
        × (recv b u r fparse now4 c3 d4 ≡ ok c4)
        × (c2.state ≡ State.connecting)
        × (c2.mtu ≡ session.mtu_size)
        × (c4.state ≡ State.connected)
        × (c4.sent
            ≡ ((c.sent ++ ((c.address, replied) ∷ [])) ++ ((c.address, informed) ∷ []))
              ++ ((c.address, accepted) ∷ []))
        × (Packet.parse b u
              (packet_of (reply c (record connect { mtu_size = (connect.mtu_size + 47) % 2 ^ 16 })))
            ≡ ok replied)
        × (Packet.parse b u (packet_of (session_reply c session address)) ≡ ok informed)
        × Carries b (index_at 0 c.rakhandler.order_index) accepted accepting
        × (c4.event_dispatch ≡ c.event_dispatch)
  handshake_connects now1 now2 now3 now4 c connect session request arrival address d1 d2 d3 d4
        requesting arriving accepting order_laws laws unwraps new room guid at started version fits1
        written1 fits2 written2 fits3 written3 carries3 fits4 written4 carries4 accepts small
        short =
      let (replied, informed, run1, run2, replies, informs) =
        opens b u r fparse laws now1 now2 c connect session address d1 d2 new guid at version fits1
          written1 fits2 written2 in
      let c2 = joining c now2 session replied informed in
      let (c3, c4, accepted, run3, run4, state, sent, carry, same) =
        joins b u r fparse laws now3 now4 c2 request arrival address d3 d4 requesting arriving
          accepting order_laws unwraps refl room fits2.1 at started fits3 written3 carries3 fits4
          written4 carries4 accepts small short in
      (
        greeted c now1 connect replied,
        c2,
        c3,
        c4,
        replied,
        informed,
        accepted,
        run1,
        run2,
        run3,
        run4,
        refl,
        refl,
        state,
        sent,
        replies,
        informs,
        carry,
        same,
      )
