-- ===== src/Send/Single.antt =====
-- A payload that is its only fragment, as the queue's packets are, through `send_frames`.
use netrex_rak_net.Prelude.{
  ℕ, ◌+◌, ◌^◌, ◌<◌, ◌≤◌, ◌≡◌, refl, sym, ap, ◌∙◌, List, [], ◌∷◌, length, Result, ok, ◌>>=◌, arith,
  le→ltb,
}
use netrex_rak_net.Wire.{ByteOrder, IsByteOrder}
use netrex_rak_net.Reliability.{
  reliable_ord, is_ordered, is_reliable, is_sequenced, is_sequenced_or_ordered,
}
use netrex_rak_net.Frame
use netrex_rak_net.Frame.{Frame}
use netrex_rak_net.Frame.Carrier.{
  wire, fragment_frame, fragment_frame-written, wire_fragment-IsFrame,
}
use netrex_rak_net.Frame.Partition.{labelled}
use netrex_rak_net.FramePacket
use netrex_rak_net.FramePacket.Codec.{compose_packet-parse}
use netrex_rak_net.FramePacket.Fields.{parse-wire_frames}
use netrex_rak_net.Meta.{
  RakConnHandlerMeta, index_at, next_seq, next_order_index, next_reliable_index, free_fragment_id,
}
use netrex_rak_net.Connection.{Connection, send_immediate}
use netrex_rak_net.Send.{
  initial_indexes, open_packet, stamp, note_fragment, send_packet, room, enter, send_loop,
  send_some, send_frames, free_all,
}
use netrex_rak_net.Send.Whole.{datagram, numbered, send_packet_reliable}
use netrex_rak_net.Send.Delivered.{CountersFit, after}

-- The frame that carries the payload as its only fragment.
abbrev pub fragment_carrier : RakConnHandlerMeta → ℕ → List ℕ → Frame
fragment_carrier m id payload =
    fragment_frame id (index_at 0 m.message_index) (index_at 0 m.order_index) payload

-- The connection after that, with the id given back.
abbrev pub after_fragment : Connection → ℕ → ℕ → List ℕ → Connection
after_fragment c now id bytes = record (after c now bytes) {
  rakhandler = free_fragment_id (after c now bytes).rakhandler id;
}

module _ (b : ByteOrder) (fparse : Result (List ℕ) → Result (List ℕ)) (now : ℕ) where
  send_frames_fits :
      (c : Connection) (id : ℕ) (payload bytes : List ℕ)
      → fparse (Frame.parse b (fragment_carrier c.rakhandler id payload)) ≡ ok bytes
      → length bytes ≤ room b fparse now c
      → send_frames b fparse now c (labelled 1 id 0 (payload ∷ [])) reliable_ord ≡ (
          send_packet b fparse now
            (record c { rakhandler = numbered c.rakhandler })
            (datagram c.rakhandler (fragment_carrier c.rakhandler id payload ∷ []))
          >>= λ d. ok (free_all (id ∷ []) d))
  unfolding send_frames send_some send_loop enter initial_indexes open_packet stamp note_fragment
      is_ordered is_reliable is_sequenced is_sequenced_or_ordered next_order_index next_seq
      next_reliable_index
  send_frames_fits c id payload bytes e fits =
      rw (e, le→ltb (room b fparse now c) (length bytes + 0) (omega arith)) refl

  pub send_frames_written :
      (c : Connection) (id : ℕ) (payload : List ℕ)
      → IsByteOrder b
      → ((bs : List ℕ) → fparse (ok bs) ≡ ok bs)
      → CountersFit c.rakhandler
      → id < 2 ^ 16
      → length payload + 80 ≤ c.mtu
      → c.mtu < 2 ^ 16
      → length payload < 8192
      → let p = datagram c.rakhandler (wire (fragment_carrier c.rakhandler id payload) ∷ []) in
        (bytes : List ℕ) × (FramePacket.parse b p ≡ ok bytes)
        × (send_frames b fparse now c (labelled 1 id 0 (payload ∷ [])) reliable_ord
            ≡ ok (after_fragment c now id bytes))
        × (FramePacket.compose b bytes 0
            ≡ ok (record FramePacket.new { sequence = p.sequence; frames = p.frames }))
  unfolding next_seq next_order_index next_reliable_index free_all send_immediate
  send_frames_written c id payload laws unwraps fit named room small body_fits =
      let m = c.rakhandler in
      let message = index_at 0 m.message_index in
      let order = index_at 0 m.order_index in
      let (frame_bytes, e, size) =
        fragment_frame-written b id message order payload laws named fit.message_fits
          fit.order_fits in
      let is =
        wire_fragment-IsFrame id message order payload named fit.message_fits fit.order_fits
          body_fits in
      let (bytes, e', composed) =
        compose_packet-parse b laws (datagram m (wire (fragment_carrier m id payload) ∷ []))
          (omega (arith, fit.sequence_fits)) (is, tt) in
      let written =
        ap fparse (sym (parse-wire_frames b (datagram m []) (fragment_carrier m id payload)) ∙ e')
        ∙ unwraps bytes in
      (
        bytes,
        e',
        send_frames_fits c id payload frame_bytes (ap fparse e ∙ unwraps frame_bytes) (omega arith)
            ∙ ap (λ x. x >>= λ d. ok (free_all (id ∷ []) d))
                (send_packet_reliable b fparse now (record c { rakhandler = numbered m }) m
                  (fragment_carrier m id payload ∷ []) bytes written),
        composed,
      )
