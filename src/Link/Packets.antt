-- ===== src/Link/Packets.antt =====
-- Packets of the protocol that `recv` gets: offline ones as a datagram, online ones in an ordered frame of one.
use netrex_rak_net.Prelude.{
  ℕ, ◌≤◌, ◌≡◌, refl, sym, ap, subst, ◌∙◌, true, false, List, [], ◌∷◌, ◌==◌, ◌||◌, Always-ok,
  Always-behind, Result, ok, ok_injective, ◌>>=◌, arith,
}
use netrex_rak_net.Prelude.Table.{insert}
use netrex_rak_net.Address.{Resolver}
use netrex_rak_net.Wire.{ByteOrder}
use netrex_rak_net.Reliability.{is_reliable, is_ordered, is_sequenced}
use netrex_rak_net.State
use netrex_rak_net.OrderedQueue
use netrex_rak_net.Frame
use netrex_rak_net.Frame.{Frame, is_fragmented}
use netrex_rak_net.Frame.Carrier.{wire, ordered_frame}
use netrex_rak_net.FramePacket
use netrex_rak_net.Connection.{Connection}
use netrex_rak_net.Packet
use netrex_rak_net.Packet.{
  BinaryUtils, Packet, Payload, OnlinePacket, OfflinePacket, OpenConnectRequest, SessionInfoRequest,
  ConnectionRequest, NewConnection, new_magic, packet_of, payload_id, online, offline,
  open_connect_request, session_info_request, session_info_reply, connection_request,
  connection_accept, new_connection,
}
use netrex_rak_net.Packet.Codecs.{parse_payload}
use netrex_rak_net.Packet.Codecs.RoundTrip.{
  IsBinaryUtils, Fits, received, compose_packet-parse_packet,
}
use netrex_rak_net.Protocol.{handle_offline, answer_online, handle_online}
use netrex_rak_net.Receive.{
  fine, handle_buffer, handle_packet, handle_frame, note_reliable, receive_frame, recv,
}
use netrex_rak_net.Link.Received.{Carries, carried, settled, recv-one}

-- The connection when the frame of a datagram is handled.
abbrev pub entered : Connection → ℕ → ℕ → ℕ → List ℕ → Connection
entered c now q order payload = record c {
  recv_time = now;
  rakhandler = record (c.rakhandler) {
    ack_counts = insert q tt c.rakhandler.ack_counts;
    ordered_channels = (OrderedQueue.insert c.rakhandler.ordered_channels payload order).0;
  };
}

pub insert_start :
    (q : OrderedQueue.OrderedQueue (List ℕ)) (packet : List ℕ) (id : ℕ)
    → (OrderedQueue.insert q packet id).0.scope.0 ≡ q.scope.0
unfolding OrderedQueue.insert
insert_start q packet id = ground arith

insert-within :
    (q : OrderedQueue.OrderedQueue (List ℕ)) (packet : List ℕ) (id : ℕ)
    → q.scope.0 ≤ id
    → (OrderedQueue.insert q packet id).1 ≡ true
unfolding OrderedQueue.insert
insert-within q packet id within = ground arith

module _ (b : ByteOrder) (u : BinaryUtils) (r : Resolver)
    (fparse : Result (List ℕ) → Result (List ℕ)) (now : ℕ) (laws : IsBinaryUtils u) where
  -- A packet is read from the bytes that are written for it.
  pub written-read :
      (p : Payload) (bytes : List ℕ)
      → Fits p
      → Packet.parse b u (packet_of p) ≡ ok bytes
      → (end : ℕ) × (Packet.compose b u bytes 0 ≡ ok (packet_of (received p), end))
  written-read p bytes fits e =
      let (bs, end, e', read) = compose_packet-parse_packet b u laws p fits in
      (
        end,
        subst (λ x. Packet.compose b u x 0 ≡ ok (packet_of (received p), end))
            (ok_injective (sym e' ∙ e)) read,
      )

  -- An offline packet in a datagram.
  pub recv-offline :
      (c d : Connection) (p : OfflinePacket) (bytes : List ℕ) (end : ℕ)
      → Packet.compose b u bytes 0 ≡ ok (packet_of (offline p), end)
      → handle_offline b u r fparse now (record c { recv_time = now }) (packet_of (offline p))
        ≡ ok d
      → State.is_reliable d.state ≡ true
      → recv b u r fparse now c bytes ≡ ok d
  unfolding recv
  recv-offline c d p bytes end read run reliable = rw (recv, read, run, reliable) refl

  handle_buffer-online :
      (c : Connection) (p : OnlinePacket) (bytes : List ℕ) (end : ℕ)
      → Packet.compose b u bytes 0 ≡ ok (packet_of (online p), end)
      → handle_buffer b u r fparse now c bytes ≡ answer_online b u r fparse now c p
  unfolding handle_buffer handle_online
  handle_buffer-online c p bytes end read = rw (handle_buffer, read) refl

  -- An online packet in an ordered frame in a datagram.
  recv-online :
      (c d : Connection) (p : OnlinePacket) (tail rest : List ℕ) (end id q message order : ℕ)
      → (id == 0xa0 || id == 0xc0) ≡ false
      → Packet.compose b u (id ∷ tail) 0 ≡ ok (packet_of (online p), end)
      → FramePacket.compose b (0x80 ∷ rest) 0
        ≡ ok (record FramePacket.new {
          sequence = q;
          frames = wire (ordered_frame message order (id ∷ tail)) ∷ [];
        })
      → c.rakhandler.ordered_channels.scope.0 ≤ order
      → answer_online b u r fparse now (entered c now q order (id ∷ tail)) p ≡ ok d
      → recv b u r fparse now c (0x80 ∷ rest) ≡ ok (settled d)
  unfolding receive_frame note_reliable is_fragmented is_reliable handle_frame handle_packet
      Frame.is_sequenced is_sequenced is_ordered
  recv-online c d p tail rest end id q message order other read composed within run =
      recv-one b u r fparse now laws c d q (wire (ordered_frame message order (id ∷ tail))) rest
        composed
        (rw (insert-within c.rakhandler.ordered_channels (id ∷ tail) order within, other)
          (ap (λ m. m >>= fine)
            (handle_buffer-online (entered c now q order (id ∷ tail)) p (id ∷ tail) end read
              ∙ run)))

  -- The bytes of a packet start with its id.
  parse-id :
      (p : Packet) (bytes : List ℕ)
      → Packet.parse b u p ≡ ok bytes
      → (tail : List ℕ) × (bytes ≡ p.id ∷ tail)
  unfolding Packet.parse
  parse-id p bytes e =
      (Always-behind {Q = λ (bs : List ℕ). (tail : List ℕ) × (bs ≡ p.id ∷ tail)}
          (parse_payload b u p.payload) λ tail. Always-ok (tail, refl)).has
        bytes e

  -- A datagram with an online packet, of which the user of the connection is told nothing.
  pub recv-Carries_online :
      (c : Connection) (p : OnlinePacket) (bytes payload : List ℕ)
      → (payload_id (online p) == 0xa0 || payload_id (online p) == 0xc0) ≡ false
      → Fits (online p)
      → received (online p) ≡ online p
      → Packet.parse b u (packet_of (online p)) ≡ ok payload
      → Carries b c.rakhandler.ordered_channels.scope.0 bytes payload
      → (q : ℕ) × (order : ℕ) × (c.rakhandler.ordered_channels.scope.0 ≤ order)
        × ((d : Connection)
            → answer_online b u r fparse now (entered c now q order payload) p ≡ ok d
            → recv b u r fparse now c bytes ≡ ok (settled d))
  recv-Carries_online c p bytes payload other fits same e
        (carried rest q message order header composed within) =
      let (tail, starts) = parse-id (packet_of (online p)) payload e in
      let (end, read) = written-read (online p) payload fits e in
      (
        q,
        order,
        within,
        λ d run.
            subst (λ bs. recv b u r fparse now c bs ≡ ok (settled d)) (sym header)
              (recv-online c d p tail rest end (payload_id (online p)) q message order other
                (rw (starts, same) at read) (rw (header, starts) at composed) within
                (rw starts at run)),
      )
