-- ===== src/Link/Handshake/Joins.antt =====
-- The two packets of a handshake that come in frames.
use netrex_rak_net.Prelude.{
  ℕ, ◌+◌, ◌-◌, ◌%◌, ◌^◌, ◌<◌, ◌≤◌, ◌≡◌, refl, sym, ap, subst, ◌∙◌, List, [], ◌∷◌, ◌++◌, length,
  le→ltb, Result, ok,
}
use netrex_rak_net.Address.{Resolver, SocketAddr, from_address_token, v4}
use netrex_rak_net.Wire.{ByteOrder, IsByteOrder}
use netrex_rak_net.Reliability.{reliable_ord}
use netrex_rak_net.State
use netrex_rak_net.Queue.{immediate}
use netrex_rak_net.Meta.{index_at, next_seq, next_order_index, next_reliable_index}
use netrex_rak_net.Meta.Counters.{HasRoom}
use netrex_rak_net.Connection.{Connection, send_immediate}
use netrex_rak_net.Packet
use netrex_rak_net.Packet.{
  BinaryUtils, Packet, Payload, OnlinePacket, OfflinePacket, OpenConnectRequest, SessionInfoRequest,
  ConnectionRequest, ConnectionAccept, NewConnection, new_magic, packet_of, payload_id, online,
  offline, open_connect_request, session_info_request, session_info_reply, connection_request,
  connection_accept, new_connection,
}
use netrex_rak_net.Packet.Codecs.RoundTrip.{IsBinaryUtils, Fits}
use netrex_rak_net.Protocol.{elapsed, send_packet, answer_online}
use netrex_rak_net.Receive.{recv}
use netrex_rak_net.Send.Delivered.{after}
use netrex_rak_net.Send.{send_framed, send_frame}
use netrex_rak_net.Link.Received.{Carries, settled}
use netrex_rak_net.Link.Packets.{entered, insert_start, recv-Carries_online}
use netrex_rak_net.Link.Sent.{send_framed_carries}

-- What the connection accepts a request with.
abbrev pub acceptance : Connection → ℕ → SocketAddr → ConnectionRequest → ConnectionAccept
acceptance c now address request = record {
  client_address = address;
  system_index = 0;
  internal_id = record { ip = v4 255 255 255 255; port = 19132 };
  request_time = request.time;
  timestamp = (now - c.start_time) % 2 ^ 64;
}

settled-connecting : (c : Connection) → c.state ≡ State.connecting → settled c ≡ c
unfolding State.is_reliable
settled-connecting c state = rw state refl

module _ (b : ByteOrder) (u : BinaryUtils) (r : Resolver)
    (fparse : Result (List ℕ) → Result (List ℕ)) (laws : IsBinaryUtils u) where
  -- `Connection::send_packet` of an online packet that fits a datagram.
  send_packet-online :
      (now : ℕ) (c : Connection) (p : OnlinePacket) (bytes : List ℕ)
      → Packet.parse b u (packet_of (online p)) ≡ ok bytes
      → send_packet b u r fparse now c (packet_of (online p)) immediate
        ≡ send_framed b fparse now c bytes reliable_ord
  unfolding send_packet send_frame
  send_packet-online now c p bytes e = rw e refl

  answer_online-request :
      (now : ℕ) (c : Connection) (request : ConnectionRequest) (address : SocketAddr)
      → from_address_token r c.address ≡ ok address
      → c.start_time ≤ now
      → answer_online b u r fparse now c (connection_request request)
        ≡ send_packet b u r fparse now c
            (packet_of (online (connection_accept (acceptance c now address request))))
            immediate
  unfolding answer_online
  answer_online-request now c request address at started =
      rw (at, elapsed, le→ltb now c.start_time started) refl

  -- The two online packets.
  pub joins :
      (now3 now4 : ℕ) (c : Connection) (request : ConnectionRequest) (arrival : NewConnection)
      (address : SocketAddr) (d3 d4 requesting arriving accepting : List ℕ)
      → IsByteOrder b
      → ((bs : List ℕ) → fparse (ok bs) ≡ ok bs)
      → c.state ≡ State.connecting
      → HasRoom 1 c.rakhandler
      → c.mtu < 2 ^ 16
      → from_address_token r c.address ≡ ok address
      → c.start_time ≤ now3
      → Fits (online (connection_request request))
      → Packet.parse b u (packet_of (online (connection_request request))) ≡ ok requesting
      → Carries b c.rakhandler.ordered_channels.scope.0 d3 requesting
      → Fits (online (new_connection arrival))
      → Packet.parse b u (packet_of (online (new_connection arrival))) ≡ ok arriving
      → Carries b c.rakhandler.ordered_channels.scope.0 d4 arriving
      → Packet.parse b u
          (packet_of (online (connection_accept (acceptance c now3 address request))))
        ≡ ok accepting
      → length accepting + 70 ≤ c.mtu
      → length accepting < 8192
      → (c3 c4 : Connection) × (accepted : List ℕ) × (recv b u r fparse now3 c d3 ≡ ok c3)
        × (recv b u r fparse now4 c3 d4 ≡ ok c4)
        × (c4.state ≡ State.connected)
        × (c4.sent ≡ c.sent ++ ((c.address, accepted) ∷ []))
        × Carries b (index_at 0 c.rakhandler.order_index) accepted accepting
        × (c4.event_dispatch ≡ c.event_dispatch)
  unfolding State.is_reliable send_immediate answer_online next_seq next_order_index
      next_reliable_index
  joins now3 now4 c request arrival address d3 d4 requesting arriving accepting order_laws unwraps
        state room high at started fits3 written3 carries3 fits4 written4 carries4 accepts small
        short =
      let (q, order, within, step3) =
        recv-Carries_online b u r fparse now3 laws c (connection_request request) d3 requesting refl
          fits3 refl written3 carries3 in
      let e3 = entered c now3 q order requesting in
      let (accepted, sends, carry) =
        send_framed_carries b fparse now3 order_laws unwraps e3 accepting
          (record {
            message_fits = room.message_fits;
            order_fits = room.order_fits;
            sequence_fits = room.sequence_fits;
          })
          small high short in
      let c3 = after e3 now3 accepted in
      let run3 =
        answer_online-request now3 e3 request address at started
        ∙ (send_packet-online now3 e3 (connection_accept (acceptance c now3 address request))
              accepting accepts
            ∙ sends) in
      let kept = insert_start c.rakhandler.ordered_channels requesting order in
      let (q', order', within', step4) =
        recv-Carries_online b u r fparse now4 laws c3 (new_connection arrival) d4 arriving refl
          fits4 refl written4 (subst (λ n. Carries b n d4 arriving) (sym kept) carries4) in
      let c4 : Connection = record (entered c3 now4 q' order' arriving) {
        state = State.connected;
      } in
      (
        c3,
        c4,
        accepted,
        step3 c3 run3 ∙ ap ok (settled-connecting c3 state),
        step4 c4 refl,
        refl,
        refl,
        carry,
        refl,
      )
