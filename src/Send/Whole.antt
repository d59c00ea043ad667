-- ===== src/Send/Whole.antt =====
-- A payload that `send_framed` does not split, step by step.
use netrex_rak_net.Prelude.{
  ℕ, ◌+◌, ◌-◌, ◌%◌, ◌^◌, ◌<◌, ◌≤◌, ◌≡◌, refl, true, List, [], ◌∷◌, length, ltb, ◌||◌, Result, ok,
  err, panic, stuck, ◌>>=◌, arith, lt→ltb, le→ltb,
}
use netrex_rak_net.Wire.{ByteOrder}
use netrex_rak_net.Reliability.{
  reliable_ord, is_ordered, is_reliable, is_sequenced, is_sequenced_or_ordered,
}
use netrex_rak_net.Cache.{add}
use netrex_rak_net.Frame
use netrex_rak_net.Frame.{Frame, FragmentMeta, init}
use netrex_rak_net.Frame.Carrier.{ordered_frame}
use netrex_rak_net.FramePacket
use netrex_rak_net.FramePacket.{FramePacket}
use netrex_rak_net.Meta.{
  RakConnHandlerMeta, index_at, next_seq, next_order_index, next_reliable_index,
}
use netrex_rak_net.Connection.{Connection, send_immediate}
use netrex_rak_net.Send.{
  Sending, initial_indexes, open_packet, stamp, note_fragment, send_packet, room, enter, send_loop,
  send_some, send_frames, send_framed, free_all,
}

-- The counters after the indexes and the sequence number of one reliably ordered frame are taken.
abbrev pub numbered : RakConnHandlerMeta → RakConnHandlerMeta
numbered m = (next_reliable_index (next_seq (next_order_index m 0).0).0 0).0

-- The frame that carries the payload.
abbrev pub carrier : RakConnHandlerMeta → List ℕ → Frame
carrier m payload = ordered_frame (index_at 0 m.message_index) (index_at 0 m.order_index) payload

abbrev pub datagram : RakConnHandlerMeta → List Frame → FramePacket
datagram m frames = record FramePacket.new { sequence = (m.send_seq + 1) % 2 ^ 32; frames = frames }

module _ (b : ByteOrder) (fparse : Result (List ℕ) → Result (List ℕ)) (now : ℕ) where
  short :
      (c : Connection) (payload : List ℕ)
      → length payload < c.mtu + 60
      → (ltb (length payload) 60 || ltb (length payload - 60) c.mtu) ≡ true
  short c payload h = ground arith

  >>=-ok : (m : Result Connection) → (m >>= λ c. ok (free_all [] c)) ≡ m
  unfolding free_all
  >>=-ok (ok c) = refl
  >>=-ok _ = refl

  -- A carrier that fits the datagram is sent in it.
  pub send_framed_fits :
      (c : Connection) (payload bytes : List ℕ)
      → length payload < c.mtu + 60
      → fparse (Frame.parse b (carrier c.rakhandler payload)) ≡ ok bytes
      → length bytes ≤ room b fparse now c
      → send_framed b fparse now c payload reliable_ord
        ≡ send_packet b fparse now
            (record c { rakhandler = numbered c.rakhandler })
            (datagram c.rakhandler (carrier c.rakhandler payload ∷ []))
  unfolding send_framed send_frames send_some send_loop enter initial_indexes open_packet stamp
      note_fragment is_ordered is_reliable is_sequenced is_sequenced_or_ordered next_order_index
      next_seq next_reliable_index
  send_framed_fits c payload bytes h e fits =
      rw (short c payload h, e, le→ltb (room b fparse now c) (length bytes + 0) (omega arith))
        (>>=-ok _)

  abbrev pub second : Connection → Result Connection
  second c = let (c', outbound) = open_packet c reliable_ord in send_packet b fparse now c' outbound

  >>=-through :
      (m : Result Connection) (f : Connection → Sending) (g : Sending → Result Connection)
      (h : Connection → Result Connection)
      → ((c : Connection) → g (f c) ≡ h c)
      → (((m >>= λ c. ok (f c)) >>= λ s. ok s) >>= g) ≡ (m >>= h)
  >>=-through (ok c) f g h e = e c
  >>=-through (err x) f g h e = refl
  >>=-through panic f g h e = refl
  >>=-through stuck f g h e = refl

  -- A carrier that does not fit is in no datagram: the empty one is sent, and another behind it.
  pub send_framed_over :
      (c : Connection) (payload bytes : List ℕ)
      → length payload < c.mtu + 60
      → fparse (Frame.parse b (carrier c.rakhandler payload)) ≡ ok bytes
      → room b fparse now c < length bytes
      → send_framed b fparse now c payload reliable_ord ≡ (
          send_packet b fparse now
            (record c { rakhandler = numbered c.rakhandler })
            (datagram c.rakhandler [])
          >>= second)
  unfolding send_framed send_frames send_some send_loop enter initial_indexes stamp note_fragment
      is_ordered is_reliable is_sequenced is_sequenced_or_ordered next_order_index
      next_reliable_index open_packet next_seq
  send_framed_over c payload bytes h e over =
      rw (short c payload h, e, lt→ltb (room b fparse now c) (length bytes + 0) (omega arith))
        (>>=-through _ _ _ second (λ x. >>=-ok _))

  -- A reliable datagram is sent, and kept under its sequence number until it is acknowledged.
  pub send_packet_reliable :
      (c : Connection) (m : RakConnHandlerMeta) (frames : List Frame) (bytes : List ℕ)
      → fparse (FramePacket.parse b (datagram m frames)) ≡ ok bytes
      → send_packet b fparse now c (datagram m frames)
        ≡ ok (
            send_immediate
              (record c {
                rakhandler = record (c.rakhandler) {
                  ack = add c.rakhandler.ack ((m.send_seq + 1) % 2 ^ 32) now bytes;
                };
              })
              bytes)
  unfolding send_packet is_reliable
  send_packet_reliable c m frames bytes e = rw e
