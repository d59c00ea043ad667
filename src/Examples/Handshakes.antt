-- ===== src/Examples/Handshakes.antt =====
-- A client's handshake, with the bytes written out.
use netrex_rak_net.Prelude.{ℕ, ◌≡◌, refl, List, [], ◌∷◌, length, ok, some, arith}
use netrex_rak_net.Address.{Resolver, SocketAddr, v4, from_address_token}
use netrex_rak_net.Wire.Reference.{reference, reference-IsByteOrder}
use netrex_rak_net.Wire.{read_u8, read_u16_be, read_u24_le, read_exact, read_slice}
use netrex_rak_net.Packet
use netrex_rak_net.Packet.{
  OpenConnectRequest, SessionInfoRequest, ConnectionRequest, NewConnection, new_magic, packet_of,
}
use netrex_rak_net.Packet.Codecs.Reference.Handshake.{
  opening, informing, requesting, arriving, accepting, opening_bytes, informing_bytes,
  requesting_bytes, arriving_bytes, accepting_bytes,
}
use netrex_rak_net.Protocol.Handshake.{reply, session_reply}
use netrex_rak_net.Receive.{recv}
use netrex_rak_net.FramePacket
use netrex_rak_net.Frame
use netrex_rak_net.State
use netrex_rak_net.Server
use netrex_rak_net.OrderedQueue
use netrex_rak_net.Reliability.{
  is_reliable, is_sequenced, is_sequenced_or_ordered, from_flags, to_flags,
}
use netrex_rak_net.Meta.Counters.{HasRoom}
use netrex_rak_net.Link.Received.{Carries, carried}
use netrex_rak_net.Packet.Codecs.Reference.{reference_codecs, reference_codecs-IsBinaryUtils}
use netrex_rak_net.Link.Handshake.{handshake_connects}
use netrex_rak_net.Link.Handshake.Joins.{acceptance}
use netrex_rak_net.Connection.{Connection}
use netrex_rak_net.Connection
use netrex_rak_net.Meta
use netrex_rak_net.Examples.Receives.{fresh}
use netrex_rak_net.Examples.Sends.{unwrapped}

abbrev home : SocketAddr
home = record { ip = v4 127 0 0 1; port = 19132 }

abbrev local_names : Resolver
local_names = record {
  to_socket_addrs = λ name. some (home ∷ []);
  ip_to_string = λ ip. "127.0.0.1";
  port_to_string = λ port. "19132";
}

abbrev connect : OpenConnectRequest
connect = record { magic = new_magic; protocol = 10; mtu_size = 5 }

abbrev session : SessionInfoRequest
session = record { magic = new_magic; address = home; mtu_size = 1400; client_id = 3 }

abbrev request : ConnectionRequest
request = record { client_id = 3; time = 20 }

abbrev arrival : NewConnection
arrival = record { server_address = home; system_address = home; request_time = 20; timestamp = 30 }

abbrev d3 : List ℕ
d3 = 0x80 ∷ 0 ∷ 0 ∷ 0 ∷ 0x60 ∷ 0 ∷ 24 ∷ 0 ∷ 0 ∷ 0 ∷ 0 ∷ 0 ∷ 0 ∷ 0 ∷ requesting request

abbrev d4 : List ℕ
d4 = 0x80 ∷ 1 ∷ 0 ∷ 0 ∷ 0x60 ∷ 0 ∷ 120 ∷ 1 ∷ 0 ∷ 0 ∷ 1 ∷ 0 ∷ 0 ∷ 0 ∷ arriving arrival

request_carried : Carries reference 0 d3 (requesting request)
unfolding FramePacket.compose FramePacket.compose_start FramePacket.frames_loop Frame.compose
    Frame.compose_head Frame.flags_of read_u8 read_u16_be read_u24_le read_exact read_slice
    is_reliable is_sequenced is_sequenced_or_ordered from_flags to_flags reference
request_carried = carried _ 0 0 0 refl refl (omega arith)

arrival_carried : Carries reference 0 d4 (arriving arrival)
unfolding FramePacket.compose FramePacket.compose_start FramePacket.frames_loop Frame.compose
    Frame.compose_head Frame.flags_of read_u8 read_u16_be read_u24_le read_exact read_slice
    is_reliable is_sequenced is_sequenced_or_ordered from_flags to_flags reference
arrival_carried = carried _ 1 1 1 refl refl (omega arith)

fresh-HasRoom : HasRoom 1 fresh.rakhandler
unfolding Connection.new Meta.new
fresh-HasRoom = record {
  message_fits = omega arith;
  order_fits = omega arith;
  sequence_fits = omega arith;
}

accepting_short : length (accepting (acceptance fresh 600 home request)) ≡ 85
unfolding accepting reference Connection.new
accepting_short = refl

handshake_connects_example :
    (c1 c2 c3 c4 : Connection) × (replied informed accepted : List ℕ) × (recv reference
        reference_codecs local_names unwrapped 100 fresh
        (opening 10 5)
      ≡ ok c1)
    × (recv reference reference_codecs local_names unwrapped 200 c1 (informing session) ≡ ok c2)
    × (recv reference reference_codecs local_names unwrapped 600 c2 d3 ≡ ok c3)
    × (recv reference reference_codecs local_names unwrapped 700 c3 d4 ≡ ok c4)
    × (c2.state ≡ State.connecting)
    × (c2.mtu ≡ 1400)
    × (c4.state ≡ State.connected)
    × (c4.sent
        ≡ ("127.0.0.1:19132", replied)
          ∷ ("127.0.0.1:19132", informed)
          ∷ ("127.0.0.1:19132", accepted)
          ∷ [])
    × (Packet.parse reference reference_codecs
          (packet_of (reply fresh (record connect { mtu_size = 52 })))
        ≡ ok replied)
    × (Packet.parse reference reference_codecs (packet_of (session_reply fresh session home))
        ≡ ok informed)
    × Carries reference 0 accepted (accepting (acceptance fresh 600 home request))
    × (c4.event_dispatch ≡ [])
unfolding Connection.new Meta.new OrderedQueue.empty Server.to_u8 from_address_token
handshake_connects_example =
    handshake_connects reference reference_codecs local_names unwrapped 100 200 600 700 fresh
      connect session request arrival home (opening 10 5) (informing session) d3 d4
      (requesting request) (arriving arrival) (accepting (acceptance fresh 600 home request))
      reference-IsByteOrder reference_codecs-IsBinaryUtils (λ bs. refl) refl fresh-HasRoom
      (omega arith) refl (omega arith) refl (refl, omega arith) (opening_bytes 10 5)
      (refl, omega arith, omega arith) (informing_bytes session) (omega arith, omega arith)
      (requesting_bytes request) request_carried (omega arith, omega arith) (arriving_bytes arrival)
      arrival_carried (accepting_bytes (acceptance fresh 600 home request))
      (omega (arith, accepting_short)) (omega (arith, accepting_short))
