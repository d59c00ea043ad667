-- ===== src/Send/Delivered.antt =====
-- A payload that fits a datagram arrives in it.
use netrex_rak_net.Prelude.{
  ℕ, ◌+◌, ◌%◌, ◌^◌, ◌<◌, ◌≤◌, ◌≡◌, refl, sym, ap, ◌∙◌, List, [], ◌∷◌, ◌++◌, length, Result, ok,
  arith,
}
use netrex_rak_net.Wire.{ByteOrder, IsByteOrder}
use netrex_rak_net.Reliability.{reliable_ord}
use netrex_rak_net.Cache.{add}
use netrex_rak_net.Frame.Carrier.{wire, wire-IsFrame, ordered_frame-written}
use netrex_rak_net.FramePacket
use netrex_rak_net.FramePacket.{FramePacket}
use netrex_rak_net.FramePacket.Codec.{compose_packet-parse}
use netrex_rak_net.FramePacket.Fields.{parse-wire_frames}
use netrex_rak_net.Meta.{
  RakConnHandlerMeta, index_at, next_seq, next_order_index, next_reliable_index,
}
use netrex_rak_net.Connection.{Connection, send_immediate}
use netrex_rak_net.Send.{send_framed}
use netrex_rak_net.Send.Whole.{carrier, datagram, numbered, send_framed_fits, send_packet_reliable}

-- The counters of channel 0 and the next sequence number have 24 bits, as their fields of the wire do.
pub record CountersFit (m : RakConnHandlerMeta) : Type 0 where
  pub message_fits : index_at 0 m.message_index < 2 ^ 24
  pub order_fits : index_at 0 m.order_index < 2 ^ 24
  pub sequence_fits : m.send_seq + 1 < 2 ^ 24

-- The connection after a payload was sent in the datagram `bytes`.
abbrev pub after : Connection → ℕ → List ℕ → Connection
after c now bytes =
    let m = c.rakhandler in
    send_immediate
      (record c {
        rakhandler = record (numbered m) { ack = add m.ack ((m.send_seq + 1) % 2 ^ 32) now bytes };
      })
      bytes

module _ (b : ByteOrder) (fparse : Result (List ℕ) → Result (List ℕ)) (now : ℕ) where
  pub send_framed_written :
      (c : Connection) (payload : List ℕ)
      → IsByteOrder b
      → ((bs : List ℕ) → fparse (ok bs) ≡ ok bs)
      → CountersFit c.rakhandler
      → length payload + 70 ≤ c.mtu
      → c.mtu < 2 ^ 16
      → length payload < 8192
      → let p = datagram c.rakhandler (wire (carrier c.rakhandler payload) ∷ []) in
        (bytes : List ℕ) × (FramePacket.parse b p ≡ ok bytes)
        × (send_framed b fparse now c payload reliable_ord ≡ ok (after c now bytes))
        × (FramePacket.compose b bytes 0
            ≡ ok (record FramePacket.new { sequence = p.sequence; frames = p.frames }))
  unfolding next_seq next_order_index next_reliable_index
  send_framed_written c payload laws unwraps fit room small body_fits =
      let m = c.rakhandler in
      let message = index_at 0 m.message_index in
      let order = index_at 0 m.order_index in
      let (frame_bytes, e, size) =
        ordered_frame-written b message order payload laws fit.message_fits fit.order_fits in
      let is = wire-IsFrame message order payload fit.message_fits fit.order_fits body_fits in
      let (bytes, e', composed) =
        compose_packet-parse b laws (datagram m (wire (carrier m payload) ∷ []))
          (omega (arith, fit.sequence_fits)) (is, tt) in
      let written =
        ap fparse (sym (parse-wire_frames b (datagram m []) (carrier m payload)) ∙ e')
        ∙ unwraps bytes in
      (
        bytes,
        e',
        send_framed_fits b fparse now c payload frame_bytes (omega arith)
              (ap fparse e ∙ unwraps frame_bytes) (omega arith)
            ∙ send_packet_reliable b fparse now (record c { rakhandler = numbered m }) m
                (carrier m payload ∷ []) bytes written,
        composed,
      )

  -- A payload of at most `mtu - 70` bytes, below 8 KiB, is sent reliably ordered in one datagram. That
  -- reads back as a datagram under the next sequence number with one whole frame, whose body is
  -- the payload and whose indexes are the connection's counters. The bytes are kept in the store of
  -- datagrams that are not acknowledged, under the sequence number and the current time, and the
  -- sequence number is counted.
  pub send_framed_delivers :
      (c : Connection) (payload : List ℕ)
      → IsByteOrder b
      → ((bs : List ℕ) → fparse (ok bs) ≡ ok bs)
      → CountersFit c.rakhandler
      → length payload + 70 ≤ c.mtu
      → c.mtu < 2 ^ 16
      → length payload < 8192
      → (bytes : List ℕ) × (c' : Connection) × (send_framed b fparse now c payload reliable_ord
          ≡ ok c')
        × (c'.sent ≡ c.sent ++ ((c.address, bytes) ∷ []))
        × (FramePacket.compose b bytes 0
            ≡ ok (record FramePacket.new {
              sequence = c.rakhandler.send_seq + 1;
              frames = wire (carrier c.rakhandler payload) ∷ [];
            }))
        × (c'.rakhandler.ack ≡ add c.rakhandler.ack (c.rakhandler.send_seq + 1) now bytes)
        × (c'.rakhandler.send_seq ≡ c.rakhandler.send_seq + 1)
  unfolding send_immediate next_seq next_order_index next_reliable_index
  send_framed_delivers c payload laws unwraps fit room small body_fits =
      let m = c.rakhandler in
      let seq : (m.send_seq + 1) % 2 ^ 32 ≡ m.send_seq + 1 = omega (arith, fit.sequence_fits) in
      let (bytes, e, sends, composed) =
        send_framed_written c payload laws unwraps fit room small body_fits in
      (
        bytes,
        after c now bytes,
        sends,
        refl,
        rw seq at composed,
        ap (λ (k : ℕ). add m.ack k now bytes) seq,
        seq,
      )
