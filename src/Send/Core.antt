-- ===== src/Send/Core.antt =====
-- `send_framed` and what it calls change the handler and what is sent only.
use netrex_rak_net.Prelude.{
  ℕ, ◌+◌, ◌-◌, ◌≡◌, refl, ◌∙◌, ap, arith, List, [], ◌∷◌, Option, none, some, length, ltb, ◌||◌,
  Result, Always, Always-ok, Always-behind, Always->>=, Always-if, Always-weaken,
}
use netrex_rak_net.Wire.{ByteOrder}
use netrex_rak_net.Reliability.{Reliability, is_reliable}
use netrex_rak_net.Frame
use netrex_rak_net.Frame.{Frame, FragmentMeta, init, partition}
use netrex_rak_net.FramePacket
use netrex_rak_net.FramePacket.{FramePacket}
use netrex_rak_net.Meta.{next_fragment_id, free_fragment_id}
use netrex_rak_net.Cache.{add}
use netrex_rak_net.Connection.{Connection, send_immediate}
use netrex_rak_net.Connection.Core.{core, Keeps, core-if}
use netrex_rak_net.Send.{
  Sending, open_packet, stamp, note_fragment, free_all, send_packet, room, enter, send_loop,
  send_some, send_frames, send_framed,
}

pub connection-note_fragment :
    (s : Sending) (meta : Option FragmentMeta) → (note_fragment s meta).connection ≡ s.connection
unfolding note_fragment
connection-note_fragment s none = refl
connection-note_fragment s (some meta) = ground arith

core-free_all : (ids : List ℕ) (c : Connection) → core (free_all ids c) ≡ core c
unfolding free_all
core-free_all [] c = refl
core-free_all (id ∷ ids) c =
    core-free_all ids (record c { rakhandler = free_fragment_id c.rakhandler id })

module _ (b : ByteOrder) (fparse : Result (List ℕ) → Result (List ℕ)) (now : ℕ) where
  pub send_packet-Keeps :
      (c : Connection) (p : FramePacket) → Keeps c (send_packet b fparse now c p)
  unfolding send_packet send_immediate
  send_packet-Keeps c p = Always-behind (fparse (FramePacket.parse b p)) λ parsed. Always-ok (
      core-if c (is_reliable p.reliability)
        (record c {
          rakhandler = record (c.rakhandler) { ack = add c.rakhandler.ack p.sequence now parsed };
        })
        c refl refl)

  abbrev pub KeepsSending : Connection → Result Sending → Type 0
  KeepsSending c m = Always (λ s. core s.connection ≡ core c) m

  pub enter-Keeps :
      (r : Reliability) (s : Sending) (f : Frame)
      → KeepsSending s.connection (enter b fparse now r s f)
  unfolding enter open_packet
  enter-Keeps r s f = Always-behind (fparse (Frame.parse b f)) λ bytes.
      Always-if (ltb (room b fparse now s.connection) (length bytes + s.outbound.byte_length))
        (Always->>= (send_packet b fparse now s.connection s.outbound)
          (send_packet-Keeps s.connection s.outbound) (λ c e. Always-ok e))
        (Always-ok refl)

  pub send_loop-Keeps :
      (r : Reliability) (i j : Option ℕ) (fs : List Frame) (s : Sending)
      → KeepsSending s.connection (send_loop b fparse now r i j fs s)
  unfolding send_loop
  send_loop-Keeps r i j [] s = Always-ok refl
  send_loop-Keeps r i j (f ∷ fs) s =
      Always-behind (stamp s.connection.rakhandler f r i j) λ stamped.
        let s' =
          note_fragment (record s { connection = record (s.connection) { rakhandler = stamped.0 } })
            stamped.1.fragment_meta in
        Always->>= (enter b fparse now r s' (stamped.1)) (enter-Keeps r s' (stamped.1)) λ s'' e.
          Always-weaken (send_loop-Keeps r i j fs s'')
            λ t e'. e' ∙ e ∙ ap core (connection-note_fragment _ stamped.1.fragment_meta)

  send_some-Keeps :
      (c : Connection) (fs : List Frame) (r : Reliability) → Keeps c (send_some b fparse now c fs r)
  unfolding send_some open_packet
  send_some-Keeps c fs r = Always->>= _ (send_loop-Keeps r _ _ fs _) λ s e.
      Always->>= (send_packet b fparse now s.connection s.outbound)
        (send_packet-Keeps s.connection s.outbound)
        λ c'' e'. Always-ok (core-free_all s.free c'' ∙ e' ∙ e)

  pub send_frames-Keeps :
      (c : Connection) (fs : List Frame) (r : Reliability)
      → Keeps c (send_frames b fparse now c fs r)
  unfolding send_frames
  send_frames-Keeps c [] r = Always-ok refl
  send_frames-Keeps c (f ∷ fs) r = send_some-Keeps c (f ∷ fs) r

  pub send_framed-Keeps :
      (c : Connection) (payload : List ℕ) (r : Reliability)
      → Keeps c (send_framed b fparse now c payload r)
  unfolding send_framed next_fragment_id
  send_framed-Keeps c payload r =
      let (m, id) = next_fragment_id c.rakhandler in
      Always-if (ltb (length payload) 60 || ltb (length payload - 60) c.mtu)
        (send_frames-Keeps c (record init { body = payload } ∷ []) r)
        (Always-behind (partition payload id (room b fparse now c))
          λ frames. send_frames-Keeps (record c { rakhandler = m }) frames r)
