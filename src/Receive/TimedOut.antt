-- ===== src/Receive/TimedOut.antt =====
-- `Connection::tick` on a connection that is no longer reliable and was silent for fifteen seconds.
use netrex_rak_net.Prelude.{
  ℕ, String, ◌+◌, ◌-◌, ◌/◌, ◌^◌, ◌<◌, ◌≤◌, ◌≡◌, refl, ap, ◌∙◌, true, false, List, [], ◌∷◌, ◌++◌,
  leb, le→ltb, le→leb, Result, ok, arith,
}
use netrex_rak_net.Address.{Resolver}
use netrex_rak_net.Wire.{ByteOrder, IsByteOrder}
use netrex_rak_net.Reliability.{reliable_ord}
use netrex_rak_net.State
use netrex_rak_net.Server
use netrex_rak_net.Frame.Carrier.{wire}
use netrex_rak_net.FramePacket
use netrex_rak_net.FramePacket.{FramePacket}
use netrex_rak_net.Connection.{Connection}
use netrex_rak_net.Connection.Core.{core}
use netrex_rak_net.Connection.Closed.{IsClosed}
use netrex_rak_net.Packet
use netrex_rak_net.Packet.{BinaryUtils, packet_of, online, disconnect_packet, parse_payload}
use netrex_rak_net.Send.{send_framed, send_frame}
use netrex_rak_net.Send.Whole.{carrier}
use netrex_rak_net.Send.Core.{send_framed-Keeps}
use netrex_rak_net.Send.Delivered.{CountersFit, send_framed_delivers}
use netrex_rak_net.Protocol.{elapsed, closed, disconnect, send_packet}
use netrex_rak_net.Protocol.Closing.{closed-IsClosed}
use netrex_rak_net.Receive.{tick}

module _ (b : ByteOrder) (u : BinaryUtils) (r : Resolver)
    (fparse : Result (List ℕ) → Result (List ℕ)) (now : ℕ) where
  -- The notice is sent, and the connection is closed.
  disconnect_sends :
      (c : Connection) (reason : String)
      → u.disconnect_codec.parse disconnect_packet ≡ ok []
      → disconnect b u r fparse now c reason true
        ≡ send_framed b fparse now (closed b u r fparse now c reason) (0x15 ∷ []) reliable_ord
  unfolding disconnect send_packet send_frame Packet.parse parse_payload
  disconnect_sends c reason e = rw e refl

  tick_silent :
      (c : Connection)
      → State.is_reliable c.state ≡ false
      → c.recv_time + 15000 ≤ now
      → tick b u r fparse now c
        ≡ disconnect b u r fparse now (record c { state = State.disconnected }) "Timed Out" true
  unfolding tick
  tick_silent c off silent =
      let old : leb 15 ((now - c.recv_time) / 1000) ≡ true =
        le→leb 15 ((now - c.recv_time) / 1000) (omega arith) in
      rw (elapsed, le→ltb now c.recv_time (omega arith), off, old) refl

  -- A connection whose state is not reliable, of which nothing was received for fifteen seconds or
  -- more, with counters that do not overflow and an MTU of 71 to 2 ^ 16 - 1. Its tick returns; then it is
  -- to be dropped, its queue is frozen and empty, its state is offline, the event of the timeout stands
  -- last, and one more datagram was sent, which is read as one with a single frame that holds a `Disconnect`
  -- packet. Here `fparse` returns the bytes of an outcome without an error, and a struct without fields is
  -- written as no bytes.
  pub tick_timed_out :
      (c : Connection)
      → IsByteOrder b
      → ((bs : List ℕ) → fparse (ok bs) ≡ ok bs)
      → u.disconnect_codec.parse disconnect_packet ≡ ok []
      → CountersFit c.rakhandler
      → 71 ≤ c.mtu
      → c.mtu < 2 ^ 16
      → State.is_reliable c.state ≡ false
      → c.recv_time + 15000 ≤ now
      → (bytes : List ℕ) × (d : Connection) × (tick b u r fparse now c ≡ ok d)
        × IsClosed d
        × (d.state ≡ State.offline)
        × (d.event_dispatch ≡ c.event_dispatch ++ (Server.disconnect c.address "Timed Out" ∷ []))
        × (d.sent ≡ c.sent ++ ((c.address, bytes) ∷ []))
        × (FramePacket.compose b bytes 0
            ≡ ok (record FramePacket.new {
              sequence = c.rakhandler.send_seq + 1;
              frames = wire (carrier c.rakhandler (0x15 ∷ [])) ∷ [];
            }))
  unfolding closed
  tick_timed_out c laws unwraps empty fit room small off silent =
      let c' = record c { state = State.disconnected } in
      let shut = closed b u r fparse now c' "Timed Out" in
      let (bytes, d, run, sent, read, _, _) =
        send_framed_delivers b fparse now shut (0x15 ∷ []) laws unwraps fit (omega arith) small
          (omega arith) in
      let same : core d ≡ core shut =
        (send_framed-Keeps b fparse now shut (0x15 ∷ []) reliable_ord).has d run in
      let (flag, queue) = closed-IsClosed b u r fparse now c' "Timed Out" in
      (
        bytes,
        d,
        tick_silent c off silent ∙ (disconnect_sends c' "Timed Out" empty ∙ run),
        (ap (λ x. x.ensure_disconnect) same ∙ flag, ap (λ x. x.queue) same ∙ queue),
        ap (λ x. x.state) same,
        ap (λ x. x.event_dispatch) same,
        sent,
        read,
      )
