-- ===== src/Send/Oversize.antt =====
-- `send_frames` on frames whose bodies fill a datagram, as all fragments but the last do.
use netrex_rak_net.Prelude.{
  ℕ, ◌+◌, ◌<◌, ◌≤◌, ◌≡◌, refl, sym, ap, ◌∙◌, String, List, [], ◌∷◌, ◌++◌, Option, none, some,
  length, ltb, unwrap, Result, ok, arith, All, All-append, Always, Always-ok, Always-behind,
  Always->>=, Always-if, Always-test, Always-weaken, append_assoc, append-nil,
}
use netrex_rak_net.Wire.{ByteOrder}
use netrex_rak_net.Reliability.{Reliability, is_sequenced_or_ordered}
use netrex_rak_net.Meta.{RakConnHandlerMeta, free_fragment_id}
use netrex_rak_net.Frame
use netrex_rak_net.Frame.{Frame, FragmentMeta}
use netrex_rak_net.Frame.Longer.{parse_longer}
use netrex_rak_net.FramePacket
use netrex_rak_net.FramePacket.{FramePacket}
use netrex_rak_net.Connection.{Connection, send_immediate}
use netrex_rak_net.Connection.Core.{core}
use netrex_rak_net.Send.{
  Sending, open_packet, stamp, note_fragment, free_all, send_packet, room, enter, send_loop,
  send_some, send_frames,
}
use netrex_rak_net.Send.Core.{connection-note_fragment, enter-Keeps}

pub outbound-note_fragment :
    (s : Sending) (meta : Option FragmentMeta) → (note_fragment s meta).outbound ≡ s.outbound
unfolding note_fragment
outbound-note_fragment s none = refl
outbound-note_fragment s (some meta) = ground arith

pub sent-free_all : (ids : List ℕ) (c : Connection) → (free_all ids c).sent ≡ c.sent
unfolding free_all
sent-free_all [] c = refl
sent-free_all (id ∷ ids) c =
    sent-free_all ids (record c { rakhandler = free_fragment_id c.rakhandler id })

-- The second connection has sent packets with a property behind what the first has.
abbrev pub Sends : (List ℕ → Type 0) → Connection → Connection → Type 0
Sends P c d = (sent : List (String × List ℕ)) × (d.sent ≡ c.sent ++ sent) × All (λ e. P e.1) sent

pub Sends-refl : (P : List ℕ → Type 0) (c : Connection) → Sends P c c
Sends-refl P c = ([], sym (append-nil c.sent), tt)

pub Sends-trans :
    (P : List ℕ → Type 0) (c d e : Connection) → Sends P c d → Sends P d e → Sends P c e
Sends-trans P c d e (x, p, h) (y, q, k) =
    (x ++ y, q ∙ (ap (λ z. z ++ y) p ∙ append_assoc c.sent x y), All-append (λ s. P s.1) x y h k)

module _ (b : ByteOrder) (fparse : Result (List ℕ) → Result (List ℕ)) (now : ℕ) where
  -- The bytes of a datagram without frames.
  abbrev pub IsEmpty : List ℕ → Type 0
  IsEmpty bytes = (p : FramePacket) × (p.frames ≡ []) × (fparse (FramePacket.parse b p) ≡ ok bytes)

  -- The second connection has sent datagrams without frames behind what the first has.
  abbrev pub SendsEmpty : Connection → Connection → Type 0
  SendsEmpty c d = Sends IsEmpty c d

  pub send_packet-SendsEmpty :
      (c : Connection) (p : FramePacket)
      → p.frames ≡ []
      → Always (λ d. SendsEmpty c d) (send_packet b fparse now c p)
  unfolding send_packet send_immediate
  send_packet-SendsEmpty c p h =
      Always->>= {P = λ bytes. fparse (FramePacket.parse b p) ≡ ok bytes}
        (fparse (FramePacket.parse b p)) (record { has = λ bytes e. e })
        λ bytes e. Always-ok ((c.address, bytes) ∷ [], ground arith, ((p, h, e), tt))

  pub stamp-body :
      (m : RakConnHandlerMeta) (f : Frame) (r : Reliability) (i j : Option ℕ)
      → Always (λ x. x.1.body ≡ f.body) (stamp m f r i j)
  unfolding stamp
  stamp-body m f r i j =
      Always-if (is_sequenced_or_ordered r) (Always-behind (unwrap i) λ k. Always-ok refl)
        (Always-ok refl)

  -- The datagram that is filled has no frames, and those that were sent behind the first connection have none.
  abbrev pub Emptied : Connection → Sending → Type 0
  Emptied c s = (s.outbound.frames ≡ []) × SendsEmpty c s.connection

  module _ (only : (m : Result (List ℕ)) (bs : List ℕ) → fparse m ≡ ok bs → m ≡ ok bs) where
    enter-Emptied :
        (r : Reliability) (s : Sending) (f : Frame)
        → s.outbound.frames ≡ []
        → room b fparse now s.connection ≤ length f.body
        → Always (λ s'. Emptied s.connection s') (enter b fparse now r s f)
    unfolding enter open_packet
    enter-Emptied r s f empty large =
        Always->>= {P = λ bytes. length f.body < length bytes} (fparse (Frame.parse b f))
          (record {
            has = λ bytes e. (parse_longer b f).has bytes (only (Frame.parse b f) bytes e);
          })
          λ bytes longer.
            Always-test
              (ltb (room b fparse now s.connection) (length bytes + s.outbound.byte_length))
              (λ full.
                Always->>= (send_packet b fparse now s.connection s.outbound)
                  (send_packet-SendsEmpty s.connection s.outbound empty) λ c h. Always-ok (refl, h))
              λ fits. absurd (ground (arith, fits, longer, large))

    pub send_loop-Emptied :
        (r : Reliability) (i j : Option ℕ) (k : ℕ) (fs : List Frame) (s : Sending)
        → s.outbound.frames ≡ []
        → room b fparse now s.connection ≡ k
        → All (λ f. k ≤ length f.body) fs
        → Always (λ s'. Emptied s.connection s') (send_loop b fparse now r i j fs s)
    unfolding send_loop
    send_loop-Emptied r i j k [] s empty size h =
        Always-ok (empty, ([], sym (append-nil s.connection.sent), tt))
    send_loop-Emptied r i j k (f ∷ fs) s empty size h =
        Always->>= (stamp s.connection.rakhandler f r i j)
          (stamp-body s.connection.rakhandler f r i j)
          λ stamped body.
            let c = record (s.connection) { rakhandler = stamped.0 } in
            let s' = note_fragment (record s { connection = c }) stamped.1.fragment_meta in
            let here : s'.connection ≡ c =
              connection-note_fragment (record s { connection = c }) stamped.1.fragment_meta in
            let none_yet =
              ap (λ p. p.frames)
                (outbound-note_fragment (record s { connection = c }) stamped.1.fragment_meta)
              ∙ empty in
            let roomy : room b fparse now s'.connection ≡ k =
              ap (λ x. room b fparse now x) here ∙ size in
            let step = enter-Emptied r s' (stamped.1) none_yet (rw (roomy, body) h.0) in
            let same = enter-Keeps b fparse now r s' (stamped.1) in
            Always->>= {P = λ x. Emptied s'.connection x × (core x.connection ≡ core s'.connection)}
              (enter b fparse now r s' (stamped.1))
              (record { has = λ x e. (step.has x e, same.has x e) })
              λ s'' (now_empty, kept).
                Always-weaken
                  (send_loop-Emptied r i j k fs s'' now_empty.0
                    (ap (λ x. room b fparse now x) kept ∙ roomy) h.1)
                  λ t more. (
                    more.0,
                    Sends-trans IsEmpty s.connection s''.connection t.connection
                        (
                          now_empty.1.0,
                          now_empty.1.1 ∙ ap (λ x. x.sent ++ now_empty.1.0) here,
                          now_empty.1.2,
                        )
                        more.1,
                  )

    -- Frames whose bodies have at least the room of a datagram, 60 less than the MTU modulo 2 ^ 16, are
    -- lost: wherever `send_frames` returns on such frames alone, all that it has sent is datagrams without
    -- frames. Here `fparse` gives bytes only where `parse` did.
    pub send_frames_oversize :
        (c : Connection) (fs : List Frame) (r : Reliability)
        → All (λ f. room b fparse now c ≤ length f.body) fs
        → Always (λ d. SendsEmpty c d) (send_frames b fparse now c fs r)
    unfolding send_frames send_some open_packet
    send_frames_oversize c [] r h = Always-ok ([], sym (append-nil c.sent), tt)
    send_frames_oversize c (f ∷ fs) r h =
        Always->>= _ (send_loop-Emptied r _ _ (room b fparse now c) (f ∷ fs) _ refl refl h)
          λ s (empty, sends).
            Always->>= (send_packet b fparse now s.connection s.outbound)
              (send_packet-SendsEmpty s.connection s.outbound empty)
              λ d more.
                let both = Sends-trans IsEmpty c s.connection d sends more in
                Always-ok (both.0, sent-free_all s.free d ∙ both.1, both.2)
