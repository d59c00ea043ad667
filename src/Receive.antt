-- ===== src/Receive.antt =====
-- src/internal/handler.rs, `handle`, `handle_raw_frame`, `handle_frame` and `handle_packet`, with
-- `Connection::handle`, `recv`, `is_disconnected` and `tick` of src/connection/conn.rs. A call that returns
-- an error has changed the connection, so both come back.
pub mod Closing
pub mod Parts
pub mod Reassembled
pub mod Stale
pub mod TimedOut
use Prim.Native.String
use mathlib.Core.List.{flatten}
use netrex_rak_net.Prelude.{
  ℕ, ◌+◌, ◌/◌, String, Bool, true, false, List, [], ◌∷◌, ◌++◌, map, Option, none, some, length, ltb,
  leb, ◌==◌, ◌&&◌, ◌||◌, not, if◌then◌else◌, Result, ok, err, panic, stuck, Error, unwrap, ◌>>=◌,
  ◌>>◌,
}
use netrex_rak_net.Prelude.Table.{get, insert}
use netrex_rak_net.Decimal
use netrex_rak_net.Address.{Resolver}
use netrex_rak_net.Wire.{ByteOrder}
use netrex_rak_net.Reliability.{is_reliable, is_ordered}
use netrex_rak_net.State
use netrex_rak_net.Server.{game_packet}
use netrex_rak_net.OrderedQueue
use netrex_rak_net.OrderedQueue.{sort_by_key}
use netrex_rak_net.Frame
use netrex_rak_net.Frame.{Frame, FragmentMeta, is_fragmented}
use netrex_rak_net.FramePacket
use netrex_rak_net.Packet
use netrex_rak_net.Packet.{BinaryUtils, is_online}
use netrex_rak_net.Connection.{Connection}
use netrex_rak_net.Acknowledge.{handle_nack, handle_ack}
use netrex_rak_net.Protocol.{disconnect, handle_offline, handle_online, elapsed}
use netrex_rak_net.Tick.{tick as tick_handler}

pub data RakHandlerError : Type 0 where
  unknown : String → RakHandlerError
  binary_error : Error → RakHandlerError
  unknown_packet : ℕ → RakHandlerError

-- `Display`, with the `Debug` of a `BinaryError` as an argument.
unfoldable pub to_string : (Error → String) → RakHandlerError → String
to_string debug (unknown s) = String.◌++◌ "Unknown error: " s
to_string debug (binary_error e) = String.◌++◌ "Binary error: " (debug e)
to_string debug (unknown_packet p) = String.◌++◌ "Unknown packet: " (Decimal.to_string p)

-- `From<String>`.
abbrev pub of_string : String → RakHandlerError
of_string s = unknown s

-- `Result<(), RakHandlerError>` with the connection.
abbrev pub Handled : Type 0
Handled = Result (Connection × Option RakHandlerError)

abbrev pub fine : Connection → Handled
fine c = ok (c, none)

-- `?` on an outcome of `binary_utils`, where the connection has not been changed.
abbrev pub or_error {ℓ} : {A : Type ℓ} → Connection → Result A → (A → Handled) → Handled
or_error c (ok a) f = f a
or_error c (err e) f = ok (c, some (binary_error e))
or_error c panic f = panic
or_error c stuck f = stuck

-- `?` on an outcome of the handler.
abbrev pub and_then : Handled → (Connection → Handled) → Handled
and_then (ok (c, none)) f = f c
and_then (ok (c, some e)) f = ok (c, some e)
and_then (err e) f = err e
and_then panic f = panic
and_then stuck f = stuck

-- The bodies of the parts, in the order of their indexes.
unfoldable pub reassemble : List (ℕ × Frame) → List ℕ
reassemble parts = flatten (map (λ e. e.1.body) (sort_by_key parts))

module _ (b : ByteOrder) (u : BinaryUtils) (r : Resolver)
    (fparse : Result (List ℕ) → Result (List ℕ)) (now : ℕ) where
  -- `Connection::handle`.
  unfoldable pub handle_buffer : Connection → List ℕ → Result Connection
  handle_buffer c buffer = elim (Packet.compose b u buffer 0) [
    | ok (packet, _) ↦
        if is_online packet
        then handle_online b u r fparse now c packet
        else disconnect b u r fparse now c "Incorrect protocol usage within raknet." true
    | err e ↦
        ok (record c { event_dispatch = c.event_dispatch ++ (game_packet c.address buffer ∷ []) })
    | panic ↦ panic
    | stuck ↦ stuck
  ]

  -- The arms `0xa0` and `0xc0` of `handle`, and what stands for the arm of frames.
  unfoldable pub handle_with : (Connection → List ℕ → Handled) → Connection → List ℕ → Handled
  handle_with raw_frame c [] = fine c
  handle_with raw_frame c (id ∷ rest) =
      let payload : List ℕ = id ∷ rest in
      if leb 0x80 id && leb id 0x8d
      then raw_frame c payload
      else if id == 0xa0
      then or_error c (handle_nack b c payload) fine
      else if id == 0xc0
      then or_error c (handle_ack b c payload) fine
      else ok (c, some (unknown_packet id))

  -- A packet that starts with `0xa0` or `0xc0` goes to `handle`, which does not take its arm of frames.
  unfoldable pub handle_packet : Connection → List ℕ → Handled
  handle_packet c [] = fine c
  handle_packet c (id ∷ rest) =
      let packet : List ℕ = id ∷ rest in
      if id == 0xa0 || id == 0xc0
      then handle_with (λ c' _. fine c') c packet
      else (handle_buffer c packet >>= fine)

  unfoldable pub handle_frame : Connection → Frame → Handled
  handle_frame c frame =
      let m = c.rakhandler in
      if Frame.is_sequenced frame || is_reliable frame.reliability
      then (if is_ordered frame.reliability
          then (unwrap frame.order_index >>= λ id.
              let (channels, success) = OrderedQueue.insert m.ordered_channels frame.body id in
              let c' = record c { rakhandler = record m { ordered_channels = channels } } in
              if success then handle_packet c' frame.body else fine c')
          else handle_packet c frame.body)
      else handle_packet c frame.body

  -- The number of a datagram is kept for its ACK, for each reliable frame.
  unfoldable pub note_reliable : Connection → ℕ → Frame → Connection
  note_reliable c sequence frame =
      let m = c.rakhandler in
      if is_reliable frame.reliability
      then record c { rakhandler = record m { ack_counts = insert sequence tt m.ack_counts } }
      else c

  -- A fragment is kept with the others of its id, and the frame is made where they are all there.
  unfoldable pub collect : Connection → Frame → FragmentMeta → Handled
  collect c frame meta =
      let m = c.rakhandler in
      let held : List (ℕ × Frame) = elim (get meta.id m.fragmented_frames) [
        | none ↦ []
        | some parts ↦ parts
      ] in
      let parts = if length held == meta.size then held else insert meta.index frame held in
      let c' = record c {
        rakhandler = record m { fragmented_frames = insert meta.id parts m.fragmented_frames };
      } in
      if length parts == meta.size
      then handle_frame c' (record frame { body = reassemble parts; fragment_meta = none })
      else fine c'

  -- One round of the loop of `handle_raw_frame`.
  unfoldable pub receive_frame : Connection → ℕ → Frame → Handled
  receive_frame c sequence frame =
      let c' = note_reliable c sequence frame in
      if is_fragmented frame
      then (unwrap frame.fragment_meta >>= λ meta. collect c' frame meta)
      else handle_frame c' frame

  unfoldable pub receive_frames : Connection → ℕ → List Frame → Handled
  receive_frames c sequence [] = fine c
  receive_frames c sequence (f ∷ fs) =
      and_then (receive_frame c sequence f) λ c'. receive_frames c' sequence fs

  unfoldable pub handle_raw_frame : Connection → List ℕ → Handled
  handle_raw_frame c payload =
      or_error c (FramePacket.compose b payload 0) λ p. receive_frames c p.sequence p.frames

  unfoldable pub handle : Connection → List ℕ → Handled
  handle c payload = handle_with handle_raw_frame c payload

  unfoldable pub recv : Connection → List ℕ → Result Connection
  recv c payload =
      let c' = record c { recv_time = now } in
      elim (Packet.compose b u payload 0) [
        | ok (packet, _) ↦
            if is_online packet
            then ok c'
            else (handle_offline b u r fparse now c' packet >>= λ d.
                if State.is_reliable d.state
                then ok d
                else ok (record d { state = State.unidentified }))
        | err e ↦ handle c' payload >>= λ done.
            if State.is_reliable done.0.state
            then ok done.0
            else ok (record (done.0) { state = State.connected })
        | panic ↦ panic
        | stuck ↦ stuck
      ]

  abbrev pub is_disconnected : Connection → Bool
  is_disconnected c = c.ensure_disconnect

  unfoldable pub tick : Connection → Result Connection
  tick c = elapsed now c.recv_time >>= λ age.
      if State.is_reliable c.state
      then tick_handler b fparse now
          (if ltb 8 (age / 1000) then record c { state = State.timing_out } else c)
      else if leb 15 (age / 1000)
      then disconnect b u r fparse now (record c { state = State.disconnected }) "Timed Out" true
      else ok c
