-- ===== src/Protocol/Handshake.antt =====
-- `handle_offline` on an `OpenConnectRequest` and a `SessionInfoRequest`: what is sent, and what is saved.
use netrex_rak_net.Prelude.{
  ℕ, ◌^◌, ◌<◌, ◌≡◌, refl, false, ◌==◌, List, [], ◌∷◌, ◌++◌, if◌then◌else◌, Result, ok, arith,
}
use netrex_rak_net.Address.{Resolver, SocketAddr, from_address_token}
use netrex_rak_net.Wire.{ByteOrder}
use netrex_rak_net.State
use netrex_rak_net.Server
use netrex_rak_net.Connection.{Connection, send_immediate}
use netrex_rak_net.Packet
use netrex_rak_net.Packet.{
  BinaryUtils, Payload, OfflinePacket, OpenConnectRequest, new_magic, packet_of, payload_id,
  offline, SessionInfoRequest, session_info_request, session_info_reply, open_connect_request,
  open_connect_reply, incompatible_protocol_version,
}
use netrex_rak_net.Packet.Codecs.{parse_payload}
use netrex_rak_net.Packet.Codecs.RoundTrip.{IsBinaryUtils}
use netrex_rak_net.Protocol.{queued, send_packet, open_connect, answer_offline, handle_offline}

-- The packets that answer a request.
abbrev pub refusal : Connection → OpenConnectRequest → Payload
refusal c pk = offline (
    incompatible_protocol_version
      (record { protocol = pk.protocol; magic = new_magic; server_id = c.server_guid }))

abbrev pub reply : Connection → OpenConnectRequest → Payload
reply c pk = offline (
    open_connect_reply (record {
      magic = new_magic;
      server_id = c.server_guid;
      security = false;
      mtu_size = pk.mtu_size;
    }))

abbrev pub session_reply : Connection → SessionInfoRequest → SocketAddr → Payload
session_reply c pk address = offline (
    session_info_reply (record {
      magic = new_magic;
      server_id = c.server_guid;
      client_address = address;
      mtu_size = pk.mtu_size;
      security = false;
    }))

module _ (b : ByteOrder) (u : BinaryUtils) (r : Resolver)
    (fparse : Result (List ℕ) → Result (List ℕ)) (now : ℕ) where
  -- An `OpenConnectRequest` whose numbers fit their types is always answered by an `OpenConnectReply`, and its
  -- size becomes the MTU. If it is of another protocol version, an `IncompatibleProtocolVersion` is sent
  -- before the reply. Nothing else of the connection changes.
  pub handle_offline_request :
      (laws : IsBinaryUtils u) (c : Connection) (pk : OpenConnectRequest)
      → pk.protocol < 2 ^ 8
      → pk.mtu_size < 2 ^ 16
      → c.server_guid < 2 ^ 64
      → (refused : List ℕ) × (replied : List ℕ) × (Packet.parse b u (packet_of (refusal c pk))
          ≡ ok refused)
        × (Packet.parse b u (packet_of (reply c pk)) ≡ ok replied)
        × (handle_offline b u r fparse now c (packet_of (offline (open_connect_request pk)))
            ≡ ok (record c {
              mtu = pk.mtu_size;
              sent =
                  (if pk.protocol == Server.to_u8 c.raknet_version
                    then c.sent
                    else c.sent ++ ((c.address, refused) ∷ []))
                  ++ ((c.address, replied) ∷ []);
            }))
  unfolding handle_offline answer_offline open_connect Packet.parse parse_payload send_packet queued
      send_immediate
  handle_offline_request laws c pk small size guid =
      let (refused, e, _) =
        laws.incompatible_protocol_version_fits
          (record { protocol = pk.protocol; magic = new_magic; server_id = c.server_guid })
          (small, refl, guid) in
      let (replied, e', _) =
        laws.open_connect_reply_fits
          (record {
            magic = new_magic;
            server_id = c.server_guid;
            security = false;
            mtu_size = pk.mtu_size;
          })
          (refl, guid, size) in
      (0x19 ∷ refused, 0x06 ∷ replied, rw e refl, rw e' refl, rw (e, e') (ground arith))

  -- A `SessionInfoRequest` is answered by a `SessionInfoReply`; its size becomes the MTU, and the state is
  -- connecting.
  pub handle_offline_session :
      (laws : IsBinaryUtils u) (c : Connection) (pk : SessionInfoRequest) (address : SocketAddr)
      → pk.mtu_size < 2 ^ 16
      → c.server_guid < 2 ^ 64
      → from_address_token r c.address ≡ ok address
      → (replied : List ℕ) × (Packet.parse b u (packet_of (session_reply c pk address))
          ≡ ok replied)
        × (handle_offline b u r fparse now c (packet_of (offline (session_info_request pk)))
            ≡ ok (record c {
              mtu = pk.mtu_size;
              state = State.connecting;
              sent = c.sent ++ ((c.address, replied) ∷ []);
            }))
  unfolding handle_offline answer_offline Packet.parse parse_payload send_packet queued
      send_immediate
  handle_offline_session laws c pk address size guid at =
      let (replied, e, _) =
        laws.session_info_reply_fits
          (record {
            magic = new_magic;
            server_id = c.server_guid;
            client_address = address;
            mtu_size = pk.mtu_size;
            security = false;
          })
          (refl, guid, size) in
      (0x08 ∷ replied, rw e refl, rw (at, e) refl)
