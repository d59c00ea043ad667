-- ===== src/Receive/Closing.antt =====
-- Nothing that is received, and no tick, opens a closed connection again.
use netrex_rak_net.Prelude.{
  ℕ, ◌/◌, Bool, true, false, List, [], ◌∷◌, ◌==◌, ◌||◌, ◌&&◌, ltb, leb, ◌≡◌, refl, ap, ◌∙◌, inr,
  none, some, unwrap, if◌then◌else◌, Result, ok, err, panic, stuck, Always, Always-ok, Always-err,
  Always-panic, Always-stuck, Always-behind, Always->>=, Always-if, Always-handled, Always-weaken,
}
use netrex_rak_net.Address.{Resolver}
use netrex_rak_net.Wire.{ByteOrder}
use netrex_rak_net.Reliability.{is_reliable, is_ordered}
use netrex_rak_net.State
use netrex_rak_net.OrderedQueue
use netrex_rak_net.Frame
use netrex_rak_net.Frame.{Frame, FragmentMeta, is_fragmented}
use netrex_rak_net.FramePacket
use netrex_rak_net.Connection.{Connection}
use netrex_rak_net.Connection.Core.{core, core-if}
use netrex_rak_net.Connection.Closed.{
  Follows, Follows-refl, Follows-trans, Follows-core, Keeps-Follows, flush-shut,
}
use netrex_rak_net.Queue.{flush}
use netrex_rak_net.Packet
use netrex_rak_net.Packet.{BinaryUtils, is_online}
use netrex_rak_net.Acknowledge.{handle_nack, handle_ack}
use netrex_rak_net.Acknowledge.Core.{handle_nack-Keeps, handle_ack-Keeps}
use netrex_rak_net.Protocol.{elapsed, handle_offline}
use netrex_rak_net.Protocol.Closing.{
  disconnect-Follows, handle_offline-Follows, handle_online-Follows,
}
use netrex_rak_net.Tick.Core.{tick-Keeps}
use netrex_rak_net.Receive.{
  Handled, fine, or_error, and_then, handle_buffer, handle_with, handle_packet, handle_frame,
  note_reliable, collect, receive_frame, receive_frames, handle_raw_frame, handle, recv, tick,
}

-- Wherever the call returns, with or without an error, the connection follows the given one.
abbrev pub Leads : Connection → Handled → Type 0
Leads c h = Always (λ d. Follows c d.0) h

Leads-fine : (c : Connection) → Leads c (fine c)
Leads-fine c = Always-ok (Follows-refl c)

Leads-or_error :
    {A : Type 0} (c : Connection) {f : A → Handled} (m : Result A)
    → ((a : A) → Leads c (f a))
    → Leads c (or_error c m f)
Leads-or_error c (ok a) g = g a
Leads-or_error c (err e) g = Always-ok (Follows-refl c)
Leads-or_error c panic g = Always-panic
Leads-or_error c stuck g = Always-stuck

Leads-or_error-fine :
    (c : Connection) (m : Result Connection)
    → Always (λ d. Follows c d) m
    → Leads c (or_error c m fine)
Leads-or_error-fine c (ok d) h = Always-ok (h.has d refl)
Leads-or_error-fine c (err e) h = Always-ok (Follows-refl c)
Leads-or_error-fine c panic h = Always-panic
Leads-or_error-fine c stuck h = Always-stuck

Leads-and_then :
    (c : Connection) {f : Connection → Handled} (h : Handled)
    → Leads c h
    → ((d : Connection) → Leads d (f d))
    → Leads c (and_then h f)
Leads-and_then c (ok (d, none)) l g =
    Always-weaken (g d) λ e k. Follows-trans c d (e.0) (l.has (d, none) refl) k
Leads-and_then c (ok (d, some x)) l g = l
Leads-and_then c (err e) l g = Always-err
Leads-and_then c panic l g = Always-panic
Leads-and_then c stuck l g = Always-stuck

Follows-aged :
    (c : Connection) (late : Bool)
    → Follows c (if late then record c { state = State.timing_out } else c)
Follows-aged c true = Follows-refl c
Follows-aged c false = Follows-refl c

Follows-flush :
    (c d : Connection) → core d ≡ core (record c { queue = (flush c.queue).0 }) → Follows c d
Follows-flush c d e = (
  ap (λ x. x.address) e,
  inr (ap (λ x. x.ensure_disconnect) e, λ q. ap (λ x. x.queue) e ∙ flush-shut c.queue q),
)

module _ (b : ByteOrder) (u : BinaryUtils) (r : Resolver)
    (fparse : Result (List ℕ) → Result (List ℕ)) (now : ℕ) where
  handle_buffer-Follows :
      (c : Connection) (buffer : List ℕ)
      → Always (λ d. Follows c d) (handle_buffer b u r fparse now c buffer)
  unfolding handle_buffer
  handle_buffer-Follows c buffer =
      Always-handled (Packet.compose b u buffer 0)
        (λ read.
          Always-if (is_online (read.0)) (handle_online-Follows b u r fparse now c (read.0))
            (disconnect-Follows b u r fparse now c _ true))
        (λ e. Always-ok (Follows-refl c))

  handle_with-Leads :
      (raw : Connection → List ℕ → Handled) (c : Connection) (payload : List ℕ)
      → Leads c (raw c payload)
      → Leads c (handle_with b u r fparse now raw c payload)
  unfolding handle_with
  handle_with-Leads raw c [] h = Leads-fine c
  handle_with-Leads raw c (id ∷ rest) h = Always-if (leb 0x80 id && leb id 0x8d) h (
      Always-if (id == 0xa0)
        (Leads-or_error-fine c (handle_nack b c (id ∷ rest))
          (Keeps-Follows c (handle_nack-Keeps b c (id ∷ rest))))
        (Always-if (id == 0xc0)
          (Leads-or_error-fine c (handle_ack b c (id ∷ rest))
            (Keeps-Follows c (handle_ack-Keeps b c (id ∷ rest))))
          (Always-ok (Follows-refl c))))

  handle_packet-Leads :
      (c : Connection) (packet : List ℕ) → Leads c (handle_packet b u r fparse now c packet)
  unfolding handle_packet
  handle_packet-Leads c [] = Leads-fine c
  handle_packet-Leads c (id ∷ rest) =
      Always-if (id == 0xa0 || id == 0xc0)
        (handle_with-Leads (λ c' _. fine c') c (id ∷ rest) (Leads-fine c))
        (Always->>= (handle_buffer b u r fparse now c (id ∷ rest))
          (handle_buffer-Follows c (id ∷ rest)) λ d f. Always-ok f)

  handle_frame-Leads :
      (c : Connection) (frame : Frame) → Leads c (handle_frame b u r fparse now c frame)
  unfolding handle_frame
  handle_frame-Leads c frame =
      Always-if (Frame.is_sequenced frame || is_reliable frame.reliability)
        (Always-if (is_ordered frame.reliability)
          (Always-behind (unwrap frame.order_index) λ id.
            let (channels, success) =
              OrderedQueue.insert c.rakhandler.ordered_channels frame.body id in
            let d = record c {
              rakhandler = record (c.rakhandler) { ordered_channels = channels };
            } in
            Always-if success (handle_packet-Leads d frame.body) (Leads-fine d))
          (handle_packet-Leads c frame.body))
        (handle_packet-Leads c frame.body)

  note_reliable-Follows :
      (c : Connection) (q : ℕ) (frame : Frame)
      → Follows c (note_reliable b u r fparse now c q frame)
  unfolding note_reliable
  note_reliable-Follows c q frame =
      Follows-core c (note_reliable b u r fparse now c q frame)
        (core-if c (is_reliable frame.reliability) _ c refl refl)

  collect-Leads :
      (c : Connection) (frame : Frame) (meta : FragmentMeta)
      → Leads c (collect b u r fparse now c frame meta)
  unfolding collect
  collect-Leads c frame meta = Always-if _ (handle_frame-Leads _ _) (Leads-fine _)

  receive_frame-Leads :
      (c : Connection) (q : ℕ) (frame : Frame) → Leads c (receive_frame b u r fparse now c q frame)
  unfolding receive_frame
  receive_frame-Leads c q frame =
      let d = note_reliable b u r fparse now c q frame in
      let noted = note_reliable-Follows c q frame in
      Always-weaken {P = λ e. Follows d e.0}
        (Always-if (is_fragmented frame)
          (Always-behind (unwrap frame.fragment_meta) λ meta. collect-Leads d frame meta)
          (handle_frame-Leads d frame))
        λ e f. Follows-trans c d (e.0) noted f

  receive_frames-Leads :
      (c : Connection) (q : ℕ) (frames : List Frame)
      → Leads c (receive_frames b u r fparse now c q frames)
  unfolding receive_frames
  receive_frames-Leads c q [] = Leads-fine c
  receive_frames-Leads c q (f ∷ fs) =
      Leads-and_then c (receive_frame b u r fparse now c q f) (receive_frame-Leads c q f)
        λ d. receive_frames-Leads d q fs

  handle-Leads : (c : Connection) (payload : List ℕ) → Leads c (handle b u r fparse now c payload)
  unfolding handle handle_raw_frame
  handle-Leads c payload =
      handle_with-Leads (handle_raw_frame b u r fparse now) c payload
        (Leads-or_error c (FramePacket.compose b payload 0) λ p. receive_frames-Leads c _ _)

  pub recv-Follows :
      (c : Connection) (payload : List ℕ)
      → Always (λ d. Follows c d) (recv b u r fparse now c payload)
  unfolding recv
  recv-Follows c payload =
      let c' = record c { recv_time = now } in
      Always-handled (Packet.compose b u payload 0)
        (λ read. Always-if (is_online (read.0)) (Always-ok (Follows-refl c)) (
          Always->>= (handle_offline b u r fparse now c' (read.0))
            (handle_offline-Follows b u r fparse now c' (read.0))
            λ d f. Always-if (State.is_reliable d.state) (Always-ok f) (Always-ok f)))
        (λ e.
          Always->>= (handle b u r fparse now c' payload) (handle-Leads c' payload)
            λ d f. Always-if (State.is_reliable d.0.state) (Always-ok f) (Always-ok f))

  pub tick-Follows : (c : Connection) → Always (λ d. Follows c d) (tick b u r fparse now c)
  unfolding tick
  tick-Follows c = Always-behind (elapsed now c.recv_time) λ age.
      let aged = if ltb 8 (age / 1000) then record c { state = State.timing_out } else c in
      Always-if (State.is_reliable c.state)
        (Always-weaken (tick-Keeps b fparse now aged) λ d e.
          Follows-trans c aged d (Follows-aged c (ltb 8 (age / 1000))) (Follows-flush aged d e))
        (Always-if (leb 15 (age / 1000)) (disconnect-Follows b u r fparse now _ _ true)
          (Always-ok (Follows-refl c)))
