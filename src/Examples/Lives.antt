-- ===== src/Examples/Lives.antt =====
-- A connection that is closed, and what is called on it then; a packet that is sent and read.
use netrex_rak_net.Prelude.{ℕ, ◌≡◌, refl, List, [], ◌∷◌, true, false, ok, arith}
use netrex_rak_net.Wire.Reference.{reference}
use netrex_rak_net.Packet
use netrex_rak_net.Packet.{packet_of, open_connect_request, offline, new_magic, Payload}
use netrex_rak_net.Packet.Codecs.Reference.{reference_codecs, reference_codecs-IsBinaryUtils}
use netrex_rak_net.Packet.Codecs.RoundTrip.{compose_packet-parse_packet, received}
use netrex_rak_net.Connection.{Connection, send}
use netrex_rak_net.Connection.Closed.{IsClosed, IsSound, shut}
use netrex_rak_net.Lifecycle.{sent, here, then}
use netrex_rak_net.Lifecycle.Closed.{Reach-IsClosed, reachable-IsSound}
use netrex_rak_net.Examples.Receives.{fresh, no_names}

abbrev shut_down : Connection
shut_down = record fresh { ensure_disconnect = true; queue = shut }

Reach-IsClosed_example : IsClosed (send (send shut_down (1 ∷ 2 ∷ []) false) (3 ∷ []) false)
Reach-IsClosed_example =
    Reach-IsClosed reference reference_codecs no_names (λ bytes. bytes) shut_down
      (send (send shut_down (1 ∷ 2 ∷ []) false) (3 ∷ []) false) (refl, refl)
      (then (then here (sent (1 ∷ 2 ∷ []) false refl)) (sent (3 ∷ []) false refl))

reachable-IsSound_example : IsSound (send fresh (1 ∷ 2 ∷ []) true)
reachable-IsSound_example =
    reachable-IsSound reference reference_codecs no_names (λ bytes. bytes) "127.0.0.1:19132" 0 10 7
      "19132" _ (send fresh (1 ∷ 2 ∷ []) true) (then here (sent (1 ∷ 2 ∷ []) true refl))

abbrev request : Payload
request =
    offline (open_connect_request (record { magic = new_magic; protocol = 10; mtu_size = 500 }))

compose_packet-parse_packet_example :
    (bs : List ℕ) × (end : ℕ) × (Packet.parse reference reference_codecs (packet_of request)
      ≡ ok bs)
    × (Packet.compose reference reference_codecs bs 0 ≡ ok (packet_of (received request), end))
compose_packet-parse_packet_example =
    compose_packet-parse_packet reference reference_codecs reference_codecs-IsBinaryUtils request
      (refl, omega arith)
