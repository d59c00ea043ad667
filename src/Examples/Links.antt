-- ===== src/Examples/Links.antt =====
-- Two connections and what arrives between them.
use netrex_rak_net.Prelude.{
  ℕ, ◌≡◌, Option, some, refl, false, List, [], ◌∷◌, length, ok, arith, Always,
}
use netrex_rak_net.Wire.Reference.{reference, reference-IsByteOrder}
use netrex_rak_net.Packet.Codecs.Reference.{reference_codecs, reference_codecs-IsBinaryUtils}
use netrex_rak_net.Wire.{read_u8, read_u16_be, read_u24_le, read_exact, read_slice}
use netrex_rak_net.FramePacket
use netrex_rak_net.Frame
use netrex_rak_net.Reliability.{
  is_reliable, is_sequenced, is_sequenced_or_ordered, from_flags, to_flags, reliable,
}
use netrex_rak_net.Ack.Nack.{count_up, length-count_up}
use netrex_rak_net.Queue.{normal}
use netrex_rak_net.Server.{game_packet}
use netrex_rak_net.Meta
use netrex_rak_net.Meta.{index_at}
use netrex_rak_net.Meta.Counters.{HasRoom}
use netrex_rak_net.OrderedQueue
use netrex_rak_net.Cache
use netrex_rak_net.Connection
use netrex_rak_net.Connection.{Connection}
use netrex_rak_net.Acknowledge.Resent.{to}
use netrex_rak_net.Send.{send_framed, send_stream}
use netrex_rak_net.Send.Oversize.{Sends}
use netrex_rak_net.Send.Bounded.{Within, send_framed-Within}
use netrex_rak_net.Tick.{tick}
use netrex_rak_net.Tick.Idle.{IsIdle}
use netrex_rak_net.Tick.Queued.{CarriesFragment}
use netrex_rak_net.Receive.{recv}
use netrex_rak_net.Registry.{RakResult, disconnect, emit}
use netrex_rak_net.Registry.Undone.{recv-emit_undoes}
use netrex_rak_net.State
use netrex_rak_net.Server.{RakEvent, connection_created}
use netrex_rak_net.Link.Received.{Carries, carried, Handed}
use netrex_rak_net.Link.{send_all, recv_all, arriving, item}
use netrex_rak_net.Link.Refines.{recv_all-send_all}
use netrex_rak_net.Link.Ticked.{recv_all-tick}
use netrex_rak_net.Link.Repeats.{holding, recv-tick_repeats}
use netrex_rak_net.Examples.Sends.{client, unwrapped}
use netrex_rak_net.Examples.Receives.{no_names, fresh}

abbrev hello : List ℕ
hello = 0xfe ∷ 1 ∷ []

abbrev bye : List ℕ
bye = 0xfe ∷ 2 ∷ 3 ∷ []

client-HasRoom : HasRoom 2 client.rakhandler
unfolding Meta.new
client-HasRoom = record {
  message_fits = omega arith;
  order_fits = omega arith;
  sequence_fits = omega arith;
}

-- The second datagram comes first, and again behind the first; the position 7 is past the end.
recv_all-send_all_example :
    (datagrams : List (List ℕ)) × (c' : Connection) × (d' : Connection) × (send_all reference
        unwrapped 600 client
        (hello ∷ bye ∷ [])
      ≡ ok c')
    × (c'.sent ≡ to "10.0.0.1:19132" datagrams)
    × (length datagrams ≡ 2)
    × (recv_all reference unwrapped 700 reference_codecs no_names fresh
          (arriving (1 ∷ 0 ∷ 7 ∷ 1 ∷ []) datagrams)
        ≡ ok d')
    × (d'.event_dispatch
        ≡ game_packet "127.0.0.1:19132" bye
          ∷ game_packet "127.0.0.1:19132" hello
          ∷ game_packet "127.0.0.1:19132" bye
          ∷ [])
    × (d'.sent ≡ [])
unfolding Connection.new Meta.new OrderedQueue.empty arriving item
recv_all-send_all_example =
    recv_all-send_all reference reference_codecs no_names unwrapped 600 700 client fresh
      (hello ∷ bye ∷ []) (1 ∷ 0 ∷ 7 ∷ 1 ∷ []) reference-IsByteOrder reference_codecs-IsBinaryUtils
      (λ bs. refl) client-HasRoom (omega arith)
      (
        (omega arith, omega arith, refl, omega arith, omega arith),
        ((omega arith, omega arith, refl, omega arith, omega arith), tt),
      )
      (omega arith)

-- A payload of 150 bytes, which is split for datagrams of 80.
send_framed-Within_example :
    Always
      (λ d. Sends (Within 24) client d)
      (send_framed reference unwrapped 600 client (count_up 0 150) reliable)
send_framed-Within_example =
    send_framed-Within reference unwrapped 600 (λ m bs e. e) reference-IsByteOrder client
      (count_up 0 150) reliable (omega arith) (omega arith) (omega (arith, length-count_up 0 150))

-- A connection whose datagrams may have 100 bytes.
abbrev wide : Connection
wide = record client { mtu = 100 }

abbrev busy : Connection
busy = record wide { queue = record { normal = hello ∷ []; low = bye ∷ []; frozen = false } }

wide-HasRoom : HasRoom 2 wide.rakhandler
unfolding Meta.new
wide-HasRoom = record {
  message_fits = omega arith;
  order_fits = omega arith;
  sequence_fits = omega arith;
}

wide-IsIdle : (now : ℕ) → IsIdle now wide.rakhandler
unfolding Meta.new Cache.empty OrderedQueue.empty OrderedQueue.flush_missing
wide-IsIdle now = record { nothing_missing = refl; nothing_received = refl; nothing_overdue = tt }

recv_all-tick_example :
    (datagrams : List (List ℕ)) × (c' : Connection) × (d' : Connection) × (tick reference unwrapped
        600 busy
      ≡ ok c')
    × (c'.sent ≡ to "10.0.0.1:19132" datagrams)
    × (length datagrams ≡ 2)
    × (recv_all reference unwrapped 700 reference_codecs no_names fresh datagrams ≡ ok d')
    × (d'.event_dispatch
        ≡ game_packet "127.0.0.1:19132" hello ∷ game_packet "127.0.0.1:19132" bye ∷ [])
    × (d'.sent ≡ [])
unfolding Connection.new Meta.new OrderedQueue.empty
recv_all-tick_example =
    recv_all-tick reference reference_codecs no_names unwrapped 600 700 busy fresh
      reference-IsByteOrder reference_codecs-IsBinaryUtils (λ bs. refl) wide-HasRoom
      (wide-IsIdle 600) (omega arith) (omega arith)
      (
        (omega arith, omega arith, refl, omega arith, omega arith),
        ((omega arith, omega arith, refl, omega arith, omega arith), tt),
      )
      (omega arith) refl

recv-tick_repeats_example :
    (bytes bytes' : List ℕ) × (c1 c2 c3 d1 d2 : Connection) × (tick reference unwrapped 600
        (holding wide hello)
      ≡ ok c1)
    × (send_stream reference unwrapped 600 c1 bye normal ≡ ok c2)
    × (tick reference unwrapped 650 c2 ≡ ok c3)
    × (c3.sent ≡ ("10.0.0.1:19132", bytes) ∷ ("10.0.0.1:19132", bytes') ∷ [])
    × CarriesFragment reference 0 0 bytes' bye
    × (recv reference reference_codecs no_names unwrapped 700 fresh bytes ≡ ok d1)
    × (recv reference reference_codecs no_names unwrapped 700 d1 bytes' ≡ ok d2)
    × (d2.event_dispatch
        ≡ game_packet "127.0.0.1:19132" hello ∷ game_packet "127.0.0.1:19132" hello ∷ [])
unfolding Connection.new Meta.new OrderedQueue.empty
recv-tick_repeats_example =
    recv-tick_repeats reference reference_codecs no_names unwrapped 600 650 700 wide fresh hello bye
      reference-IsByteOrder reference_codecs-IsBinaryUtils (λ bs. refl) wide-HasRoom
      (wide-IsIdle 600) (wide-IsIdle 650) (refl, refl) (omega arith)
      (omega arith, omega arith, refl, omega arith, omega arith)
      (omega arith, omega arith, refl, omega arith, omega arith) (omega arith) refl

abbrev hello_datagram : List ℕ
hello_datagram = 0x80 ∷ 1 ∷ 0 ∷ 0 ∷ 0x60 ∷ 0 ∷ 16 ∷ 0 ∷ 0 ∷ 0 ∷ 0 ∷ 0 ∷ 0 ∷ 0 ∷ 0xfe ∷ 1 ∷ []

hello_carried : Carries reference 0 hello_datagram hello
unfolding FramePacket.compose FramePacket.compose_start FramePacket.frames_loop Frame.compose
    Frame.compose_head Frame.flags_of read_u8 read_u16_be read_u24_le read_exact read_slice
    is_reliable is_sequenced is_sequenced_or_ordered from_flags to_flags reference
hello_carried = carried _ 1 0 0 refl refl (omega arith)

abbrev expel : ℕ → RakEvent → Option RakResult
expel n event = some (disconnect "out")

recv-emit_undoes_example :
    (d e : Connection) × (emit expel 0 (connection_created "127.0.0.1:19132" ∷ []) fresh ≡ ok d)
    × (d ≡ record fresh { state = State.offline })
    × (recv reference reference_codecs no_names unwrapped 700 d hello_datagram ≡ ok e)
    × (e.state ≡ State.connected)
    × Handed d e hello
unfolding Connection.new Meta.new OrderedQueue.empty
recv-emit_undoes_example =
    recv-emit_undoes reference reference_codecs no_names unwrapped 700 fresh expel 0 80
      (connection_created "127.0.0.1:19132") [] "out" hello_datagram hello
      reference_codecs-IsBinaryUtils refl (omega arith, omega arith, refl, omega arith, omega arith)
      hello_carried
