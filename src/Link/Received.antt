-- ===== src/Link/Received.antt =====
-- The receiving side: what `recv` does with a datagram of one ordered frame that carries a payload of a game.
use netrex_rak_net.Prelude.{
  ℕ, ◌^◌, ◌<◌, ◌≤◌, ◌≡◌, refl, sym, subst, Bool, true, false, List, [], some, ◌∷◌, ◌++◌,
  if◌then◌else◌, Result, ok, arith, le→ltb,
}
use netrex_rak_net.Prelude.Table.{insert}
use netrex_rak_net.Address.{Resolver}
use netrex_rak_net.Wire.{ByteOrder}
use netrex_rak_net.Reliability.{reliable_ord, is_reliable, is_ordered, is_sequenced}
use netrex_rak_net.State
use netrex_rak_net.Server.{game_packet}
use netrex_rak_net.OrderedQueue
use netrex_rak_net.Frame
use netrex_rak_net.Frame.{Frame, is_fragmented}
use netrex_rak_net.Frame.Carrier.{wire, ordered_frame}
use netrex_rak_net.FramePacket
use netrex_rak_net.Packet.{BinaryUtils}
use netrex_rak_net.Packet.Codecs.RoundTrip.{IsBinaryUtils}
use netrex_rak_net.Packet.Codecs.Unknown.{compose-unknown}
use netrex_rak_net.Connection.{Connection}
use netrex_rak_net.Receive.{
  fine, handle_buffer, handle_packet, handle_frame, note_reliable, receive_frame, receive_frames,
  handle_raw_frame, handle_with, handle, recv,
}
use netrex_rak_net.Link.{IsGame}

-- The connection after the frame of a datagram was handed on.
abbrev pub handed : Connection → ℕ → ℕ → List ℕ → Connection
handed c q order payload =
    let m = c.rakhandler in
    record c {
      rakhandler = record m {
        ack_counts = insert q tt m.ack_counts;
        ordered_channels = (OrderedQueue.insert m.ordered_channels payload order).0;
      };
      event_dispatch = c.event_dispatch ++ (game_packet c.address payload ∷ []);
    }

-- The state behind a datagram that is no packet.
abbrev pub settled : Connection → Connection
settled c = if State.is_reliable c.state then c else record c { state = State.connected }

-- `d` is `c` after a payload was handed to the user: that is one event more, and the connection has the same
-- address, window start and sent packets,
-- and a reliable state.
pub record Handed (c d : Connection) (payload : List ℕ) : Type 0 where
  pub dispatched : d.event_dispatch ≡ c.event_dispatch ++ (game_packet c.address payload ∷ [])
  pub same_address : d.address ≡ c.address
  pub same_sent : d.sent ≡ c.sent
  pub settled_state : d.state ≡ (if State.is_reliable c.state then c.state else State.connected)
  pub same_start : d.rakhandler.ordered_channels.scope.0 ≡ c.rakhandler.ordered_channels.scope.0

handed-Handed :
    (c : Connection) (now q order : ℕ) (payload : List ℕ)
    → c.rakhandler.ordered_channels.scope.0 ≤ order
    → Handed c (settled (handed (record c { recv_time = now }) q order payload)) payload
unfolding OrderedQueue.insert
handed-Handed c now q order payload within = record {
  dispatched = ground arith;
  same_address = ground arith;
  same_sent = ground arith;
  settled_state = ground arith;
  same_start = ground arith;
}

-- Bytes that are a datagram of one frame, with the payload, under an order index from `start` on.
pub data Carries (b : ByteOrder) (start : ℕ) (bytes payload : List ℕ) : Type 0 where
  carried :
      (rest : List ℕ) (q message order : ℕ)
      → bytes ≡ 0x80 ∷ rest
      → FramePacket.compose b bytes 0
        ≡ ok (record FramePacket.new {
          sequence = q;
          frames = wire (ordered_frame message order payload) ∷ [];
        })
      → start ≤ order
      → Carries b start bytes payload

module _ (b : ByteOrder) (u : BinaryUtils) (r : Resolver)
    (fparse : Result (List ℕ) → Result (List ℕ)) (now : ℕ) (laws : IsBinaryUtils u) where
  handle_buffer-game :
      (c : Connection) (id : ℕ) (rest : List ℕ)
      → 0x1c < id
      → id < 2 ^ 8
      → handle_buffer b u r fparse now c (id ∷ rest)
        ≡ ok (record c {
          event_dispatch = c.event_dispatch ++ (game_packet c.address (id ∷ rest) ∷ []);
        })
  unfolding handle_buffer
  handle_buffer-game c id rest above byte =
      let (e, unknown) = compose-unknown b u laws id rest above byte in
      rw (handle_buffer, unknown) refl

  pub handle_frame-game :
      (c : Connection) (f : Frame) (mtu order : ℕ) (payload : List ℕ)
      → IsGame mtu payload
      → c.rakhandler.ordered_channels.scope.0 ≤ order
      → handle_frame b u r fparse now c
          (record f { reliability = reliable_ord; order_index = some order; body = payload })
        ≡ fine (record c {
          rakhandler = record (c.rakhandler) {
            ordered_channels = (OrderedQueue.insert c.rakhandler.ordered_channels payload order).0;
          };
          event_dispatch = c.event_dispatch ++ (game_packet c.address payload ∷ []);
        })
  unfolding handle_frame handle_packet OrderedQueue.insert Frame.is_sequenced is_sequenced
      is_reliable is_ordered
  handle_frame-game c f mtu order [] game within = absurd game
  handle_frame-game c f mtu order (id ∷ rest) game within =
      rw
        (
          le→ltb order c.rakhandler.ordered_channels.scope.0 within,
          game.2,
          handle_buffer-game _ id rest game.0 game.1,
        )
        refl

  receive_frame-game :
      (c : Connection) (mtu q message order : ℕ) (payload : List ℕ)
      → IsGame mtu payload
      → c.rakhandler.ordered_channels.scope.0 ≤ order
      → receive_frame b u r fparse now c q (wire (ordered_frame message order payload))
        ≡ fine (handed c q order payload)
  unfolding receive_frame note_reliable is_fragmented is_reliable
  receive_frame-game c mtu q message order payload game within =
      let f = wire (ordered_frame message order payload) in
      rw (handle_frame-game (note_reliable b u r fparse now c q f) f mtu order payload game within)
        refl

  ok-if : (t : Bool) (x y : Connection) → (if t then ok x else ok y) ≡ ok (if t then x else y)
  ok-if true x y = refl
  ok-if false x y = refl

  -- A datagram of one frame.
  pub recv-one :
      (c c' : Connection) (q : ℕ) (f : Frame) (rest : List ℕ)
      → FramePacket.compose b (0x80 ∷ rest) 0
        ≡ ok (record FramePacket.new { sequence = q; frames = f ∷ [] })
      → receive_frame b u r fparse now (record c { recv_time = now }) q f ≡ fine c'
      → recv b u r fparse now c (0x80 ∷ rest) ≡ ok (settled c')
  unfolding recv handle handle_with handle_raw_frame receive_frames State.is_reliable
  recv-one c c' q f rest composed received =
      let (e, unknown) = compose-unknown b u laws 0x80 rest (omega arith) (omega arith) in
      rw (recv, unknown, composed, received) (ok-if (State.is_reliable c'.state) _ _)

  -- Such a datagram is handed to the user.
  pub recv-Carries :
      (c : Connection) (mtu : ℕ) (bytes payload : List ℕ)
      → IsGame mtu payload
      → Carries b c.rakhandler.ordered_channels.scope.0 bytes payload
      → (d : Connection) × (recv b u r fparse now c bytes ≡ ok d) × Handed c d payload
  recv-Carries c mtu bytes payload game (carried rest q message order e composed within) = (
    settled (handed (record c { recv_time = now }) q order payload),
    subst
        (λ bs.
          recv b u r fparse now c bs
          ≡ ok (settled (handed (record c { recv_time = now }) q order payload)))
        (sym e)
        (recv-one c (handed (record c { recv_time = now }) q order payload) q
          (wire (ordered_frame message order payload)) rest (rw e at composed)
          (receive_frame-game (record c { recv_time = now }) mtu q message order payload game
            within)),
    handed-Handed c now q order payload within,
  )
