-- ===== src/Examples/Answers.antt =====
-- A client of another version, and one that went silent.
use netrex_rak_net.Prelude.{ℕ, ◌≡◌, refl, List, [], ◌∷◌, ok, arith}
use netrex_rak_net.Wire.Reference.{reference, reference-IsByteOrder}
use netrex_rak_net.State
use netrex_rak_net.Server
use netrex_rak_net.Frame.Carrier.{wire}
use netrex_rak_net.FramePacket
use netrex_rak_net.Connection.{Connection}
use netrex_rak_net.Connection.Closed.{IsClosed}
use netrex_rak_net.Packet
use netrex_rak_net.Packet.{OpenConnectRequest, packet_of, offline, open_connect_request, new_magic}
use netrex_rak_net.Packet.Codecs.Reference.{
  reference_codecs, reference_codecs-IsBinaryUtils, disconnect_bytes,
}
use netrex_rak_net.Send.Whole.{carrier}
use netrex_rak_net.Protocol.{handle_offline}
use netrex_rak_net.Protocol.Handshake.{refusal, reply, handle_offline_request}
use netrex_rak_net.Receive.{tick}
use netrex_rak_net.Receive.TimedOut.{tick_timed_out}
use netrex_rak_net.Examples.Receives.{no_names}
use netrex_rak_net.Examples.Sends.{client, client-CountersFit, unwrapped}

-- The client speaks version 9, the server 10.
abbrev older : OpenConnectRequest
older = record { magic = new_magic; protocol = 9; mtu_size = 1200 }

handle_offline_request_example :
    (refused : List ℕ) × (replied : List ℕ) × (Packet.parse reference reference_codecs
        (packet_of (refusal client older))
      ≡ ok refused)
    × (Packet.parse reference reference_codecs (packet_of (reply client older)) ≡ ok replied)
    × (handle_offline reference reference_codecs no_names unwrapped 600 client
          (packet_of (offline (open_connect_request older)))
        ≡ ok (record client {
          mtu = 1200;
          sent = ("10.0.0.1:19132", refused) ∷ ("10.0.0.1:19132", replied) ∷ [];
        }))
unfolding Server.to_u8
handle_offline_request_example =
    handle_offline_request reference reference_codecs no_names unwrapped 600
      reference_codecs-IsBinaryUtils client older (omega arith) (omega arith) (omega arith)

abbrev quiet : Connection
quiet = record client { state = State.timing_out }

tick_timed_out_example :
    (bytes : List ℕ) × (d : Connection) × (tick reference reference_codecs no_names unwrapped 15600
        quiet
      ≡ ok d)
    × IsClosed d
    × (d.state ≡ State.offline)
    × (d.event_dispatch ≡ Server.disconnect "10.0.0.1:19132" "Timed Out" ∷ [])
    × (d.sent ≡ ("10.0.0.1:19132", bytes) ∷ [])
    × (FramePacket.compose reference bytes 0
        ≡ ok (record FramePacket.new {
          sequence = 7;
          frames = wire (carrier quiet.rakhandler (0x15 ∷ [])) ∷ [];
        }))
unfolding State.is_reliable
tick_timed_out_example =
    tick_timed_out reference reference_codecs no_names unwrapped 15600 quiet reference-IsByteOrder
      (λ bs. refl) disconnect_bytes client-CountersFit (omega arith) (omega arith) refl
      (omega arith)
