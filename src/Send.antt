-- ===== src/Send.antt =====
-- src/internal/handler.rs, `send_frames`, `send_frame` and `send_framed`, with `Connection::send_stream`
-- and `Connection::send_frame` of connection/conn.rs, which call them. `Streamable::fparse` of the
-- crate `binary_utils` is an argument: it takes the outcome of `parse`.
pub mod Core
pub mod Whole
pub mod Single
pub mod Delivered
pub mod Dropped
pub mod Oversize
pub mod Bounded
use netrex_rak_net.Prelude.{
  ℕ, ◌+◌, ◌-◌, ◌%◌, ◌^◌, Bool, true, false, List, [], ◌∷◌, ◌++◌, Option, none, some, length, ltb,
  ◌==◌, ◌||◌, if◌then◌else◌, Result, ok, panic, unwrap, ◌>>=◌, ◌>>◌,
}
use netrex_rak_net.Prelude.Table.{get, insert, remove}
use netrex_rak_net.Wire.{ByteOrder}
use netrex_rak_net.Reliability.{
  Reliability, reliable_ord, is_ordered, is_reliable, is_sequenced, is_sequenced_or_ordered,
}
use netrex_rak_net.Cache.{add}
use netrex_rak_net.Frame
use netrex_rak_net.Frame.{Frame, FragmentMeta, init, partition}
use netrex_rak_net.FramePacket
use netrex_rak_net.FramePacket.{FramePacket}
use netrex_rak_net.Queue.{SendPriority, immediate, normal, low, push}
use netrex_rak_net.Meta.{
  RakConnHandlerMeta, next_seq, get_order_index, next_order_index, next_reliable_index,
  next_sequence_index, next_fragment_id, free_fragment_id,
}
use netrex_rak_net.Connection.{Connection, send_immediate}

-- The local variables of `send_frames`: the datagram that is filled, the indexes of the fragments sent
-- by fragment id, with how many there are, and the fragment ids to free.
pub record Sending : Type 0 where
  pub connection : Connection
  pub outbound : FramePacket
  pub sent : List (ℕ × (ℕ × List ℕ))
  pub free : List ℕ

-- The `initial check`: the order index and the sequence index that the frames get.
unfoldable pub initial_indexes :
    RakConnHandlerMeta → Reliability → RakConnHandlerMeta × Option ℕ × Option ℕ
initial_indexes m r =
    if is_ordered r
    then (let (m', i) = next_order_index m 0 in (m', some i, none))
    else if is_sequenced r
    then (let (m', i) = get_order_index m 0 in
        let (m'', j) = next_sequence_index m' 0 in (m'', some i, some j))
    else (m, none, none)

-- A new datagram under the next sequence number.
unfoldable pub open_packet : Connection → Reliability → Connection × FramePacket
open_packet c r =
    let (m, seq) = next_seq c.rakhandler in
    (record c { rakhandler = m }, record FramePacket.new { reliability = r; sequence = seq })

-- The reliability and the indexes are written into a frame.
unfoldable pub stamp :
    RakConnHandlerMeta
    → Frame
    → Reliability
    → Option ℕ
    → Option ℕ
    → Result (RakConnHandlerMeta × Frame)
stamp m frame r order_index sequence =
    let (m', index) = next_reliable_index m 0 in
    let numbered : RakConnHandlerMeta × Option ℕ =
      if is_reliable r then (m', some index) else (m, frame.reliable_index) in
    let sequenced = if is_sequenced r then sequence else frame.sequence_index in
    let stamped = record frame {
      reliability = r;
      reliable_index = numbered.1;
      sequence_index = sequenced;
    } in
    if is_sequenced_or_ordered r
    then (unwrap order_index >>= λ i.
        ok (numbered.0, record stamped { order_channel = some 0; order_index = some i }))
    else ok (numbered.0, stamped)

-- `sent.entry(meta.id).or_insert((meta.size, Vec::new()))`, and the id is freed once all are there.
unfoldable pub note_fragment : Sending → Option FragmentMeta → Sending
note_fragment s none = s
note_fragment s (some meta) =
    let entry : ℕ × List ℕ = elim (get meta.id s.sent) [ none ↦ (meta.size, []) | some e ↦ e ] in
    let parts = entry.1 ++ (meta.index ∷ []) in
    let kept = insert meta.id (entry.0, parts) s.sent in
    if length parts == entry.0
    then record s { sent = remove meta.id kept; free = s.free ++ (meta.id ∷ []) }
    else record s { sent = kept }

-- `for id in free`.
pub free_all : List ℕ → Connection → Connection
free_all [] c = c
free_all (id ∷ ids) c = free_all ids (record c { rakhandler = free_fragment_id c.rakhandler id })

module _ (b : ByteOrder) (fparse : Result (List ℕ) → Result (List ℕ)) (now : ℕ) where
  -- `send_frame` of the handler.
  unfoldable pub send_packet : Connection → FramePacket → Result Connection
  send_packet c packet = do
    parsed ← fparse (FramePacket.parse b packet)
    let m = c.rakhandler
    let kept = record m { ack = add m.ack packet.sequence now parsed }
    ok (
        send_immediate
          (if is_reliable packet.reliability then record c { rakhandler = kept } else c) parsed)

  -- `self.mtu - 60` is a `u16`, and wraps.
  abbrev pub room : Connection → ℕ
  room c = (c.mtu + 2 ^ 16 - 60) % 2 ^ 16

  -- The last step of a round: the frame is entered, or the datagram is sent.
  unfoldable pub enter : Reliability → Sending → Frame → Result Sending
  enter r s frame = do
    bytes ← fparse (Frame.parse b frame)
    let entered = record (s.outbound) { frames = s.outbound.frames ++ (frame ∷ []) }
    if ltb (room s.connection) (length bytes + s.outbound.byte_length)
        then (send_packet s.connection s.outbound >>= λ c.
            let (c', outbound) = open_packet c r in
            ok (record s { connection = c'; outbound = outbound }))
        else ok (record s { outbound = entered })

  unfoldable pub send_loop :
      Reliability → Option ℕ → Option ℕ → List Frame → Sending → Result Sending
  send_loop r order_index sequence [] s = ok s
  send_loop r order_index sequence (frame ∷ frames) s = do
    (m, stamped) ← stamp s.connection.rakhandler frame r order_index sequence
    let c = s.connection
    let s' =
        note_fragment (record s { connection = record c { rakhandler = m } }) stamped.fragment_meta
    s'' ← enter r s' stamped
    send_loop r order_index sequence frames s''

  -- `send_frames` behind its first test.
  unfoldable pub send_some : Connection → List Frame → Reliability → Result Connection
  unfolding free_all
  send_some c frames r =
      let (m, order_index, sequence) = initial_indexes c.rakhandler r in
      let (c', outbound) = open_packet (record c { rakhandler = m }) r in
      do
        s ←
            send_loop r order_index sequence frames
              (record { connection = c'; outbound = outbound; sent = []; free = [] })
        c'' ← send_packet s.connection s.outbound
        ok (free_all s.free c'')

  unfoldable pub send_frames : Connection → List Frame → Reliability → Result Connection
  send_frames c [] r = ok c
  send_frames c (f ∷ fs) r = send_some c (f ∷ fs) r

  unfoldable pub send_framed : Connection → List ℕ → Reliability → Result Connection
  send_framed c payload r =
      if ltb (length payload) 60 || ltb (length payload - 60) c.mtu
      then send_frames c (record init { body = payload } ∷ []) r
      else let (m, id) = next_fragment_id c.rakhandler in
        do
          frames ← partition payload id (room c)
          send_frames (record c { rakhandler = m }) frames r

  -- The test `priority == SendPriority::Immediate` of `send_stream` and `Connection::send_frame`,
  -- whose bodies are the same.
  unfoldable pub send_stream : Connection → List ℕ → SendPriority → Result Connection
  send_stream c stream immediate = send_framed c stream reliable_ord
  send_stream c stream normal = ok (record c { queue = push c.queue stream normal })
  send_stream c stream low = ok (record c { queue = push c.queue stream low })

  unfoldable pub send_frame : Connection → List ℕ → SendPriority → Result Connection
  send_frame c stream immediate = send_framed c stream reliable_ord
  send_frame c stream normal = ok (record c { queue = push c.queue stream normal })
  send_frame c stream low = ok (record c { queue = push c.queue stream low })
