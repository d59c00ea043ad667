-- ===== src/Packet/Codecs/Reference/Handshake.antt =====
-- What the written-out `BinaryUtils` writes for the packets of a handshake.
use netrex_rak_net.Prelude.{ℕ, ◌≡◌, refl, List, [], ◌∷◌, ◌++◌, ok}
use netrex_rak_net.Wire.Reference.{reference}
use netrex_rak_net.Packet
use netrex_rak_net.Packet.{
  OpenConnectRequest, SessionInfoRequest, ConnectionRequest, NewConnection, ConnectionAccept,
  magic_bytes, new_magic, packet_of, online, offline, open_connect_request, session_info_request,
  connection_request, connection_accept, new_connection,
}
use netrex_rak_net.Packet.Codecs.{zeros, times, parse_payload, parse_online, parse_offline}
use netrex_rak_net.Packet.Codecs.{parse_open_connect_request, parse_connection_accept}
use netrex_rak_net.Packet.Codecs.Reference.{reference_codecs, coded, address_to}

unfoldable pub opening : ℕ → ℕ → List ℕ
unfolding zeros
opening protocol size = 0x05 ∷ (magic_bytes ++ (protocol ∷ zeros size))

abbrev pub informing : SessionInfoRequest → List ℕ
informing p = 0x07 ∷ p.mtu_size ∷ p.client_id ∷ address_to p.address []

abbrev pub requesting : ConnectionRequest → List ℕ
requesting p = 0x09 ∷ p.client_id ∷ p.time ∷ []

abbrev pub arriving : NewConnection → List ℕ
arriving p =
    0x13
    ∷ p.request_time
    ∷ p.timestamp
    ∷ address_to p.server_address (address_to p.system_address [])

unfoldable pub accepting : ConnectionAccept → List ℕ
unfolding times
accepting p =
    0x10
    ∷ (address_to p.client_address []
        ++ (reference.put_i16_be p.system_index
            ++ (times 10 (address_to p.internal_id [])
                ++ (reference.put_i64_be p.request_time ++ reference.put_i64_be p.timestamp))))

pub opening_bytes :
    (p : ℕ) (size : ℕ)
    → Packet.parse reference reference_codecs (
        packet_of (
          offline
            (open_connect_request (record { magic = new_magic; protocol = p; mtu_size = size }))))
      ≡ ok (opening p size)
unfolding Packet.parse parse_payload parse_offline parse_open_connect_request reference_codecs
    reference opening
opening_bytes p size = refl

pub informing_bytes :
    (p : SessionInfoRequest)
    → Packet.parse reference reference_codecs (packet_of (offline (session_info_request p)))
      ≡ ok (informing p)
unfolding Packet.parse parse_payload parse_offline reference_codecs coded reference
informing_bytes p = refl

pub requesting_bytes :
    (p : ConnectionRequest)
    → Packet.parse reference reference_codecs (packet_of (online (connection_request p)))
      ≡ ok (requesting p)
unfolding Packet.parse parse_payload parse_online reference_codecs coded reference
requesting_bytes p = refl

pub arriving_bytes :
    (p : NewConnection)
    → Packet.parse reference reference_codecs (packet_of (online (new_connection p)))
      ≡ ok (arriving p)
unfolding Packet.parse parse_payload parse_online reference_codecs coded reference
arriving_bytes p = refl

pub accepting_bytes :
    (p : ConnectionAccept)
    → Packet.parse reference reference_codecs (packet_of (online (connection_accept p)))
      ≡ ok (accepting p)
unfolding Packet.parse parse_payload parse_online parse_connection_accept reference_codecs coded
    reference accepting
accepting_bytes p = refl
