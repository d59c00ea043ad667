-- ===== src/Packet/Codecs/RoundTrip.antt =====
-- The bytes of a packet are read back.
use netrex_rak_net.Prelude.{
  ℕ, zero, suc, ◌+◌, ◌%◌, ◌^◌, ◌<◌, ◌≡◌, refl, ap, sym, List, [], ◌∷◌, ◌++◌, length, arith, ok,
  append-nil,
}
use netrex_rak_net.Address.{SocketAddr, v4}
use netrex_rak_net.Wire.{ByteOrder, Reader, ◌>>=◌}
use netrex_rak_net.Wire.Reads.{Reads, Reads-read_slice}
use netrex_rak_net.Packet.Data.{
  magic_bytes, new_magic, OnlinePacket, connected_ping, connected_pong, lost_connection,
  connection_request, connection_accept, new_connection, disconnect, OpenConnectRequest,
  OfflinePacket, unconnected_ping, open_connect_request, open_connect_reply, session_info_request,
  session_info_reply, unconnected_pong, incompatible_protocol_version, Payload, online, offline,
  packet_of, payload_id, online_id, offline_id,
}
use netrex_rak_net.Packet.Codecs.{
  Codec, BinaryUtils, compose_magic, zeros, times, compose_online, compose_offline, compose_by_id,
  compose_payload, compose, parse, parse_payload, parse_online, parse_offline,
  compose_open_connect_request, parse_open_connect_request, parse_connection_accept,
  compose_connection_accept,
}

-- What is parsed for a value is read for the value.
abbrev pub Written : {A : Type 0} → Codec A → A → Type 0
Written c a = (bs : List ℕ) × (c.parse a ≡ ok bs) × Reads c.compose bs a

-- A codec for the values that fit.
abbrev pub IsCodec : {A : Type 0} → Codec A → (A → Type 0) → Type 0
IsCodec {A} c fits = (a : A) → fits a → Written c a

abbrev pub IsU64 : ℕ → Type 0
IsU64 n = n < 2 ^ 64

-- What the documentation of `binary_utils` says of its codecs: a value is read back from its bytes. A
-- derived one goes through the fields, so a `Magic` field is read back as `MAGIC`.
pub record IsBinaryUtils (u : BinaryUtils) : Type 0 where
  pub u8_fits : (n : ℕ) → n < 2 ^ 8 → Reads u.u8.compose (n ∷ []) n
  pub socket_addr_fits : (a : SocketAddr) → (bs : List ℕ) × (u.socket_addr.parse a ≡ ok bs)
  pub connected_ping_fits : IsCodec u.connected_ping_codec (λ p. IsU64 p.time)
  pub connected_pong_fits :
      IsCodec u.connected_pong_codec (λ p. IsU64 p.ping_time × IsU64 p.pong_time)
  pub lost_connection_fits : IsCodec u.lost_connection_codec (λ p. Unit)
  pub connection_request_fits :
      IsCodec u.connection_request_codec (λ p. IsU64 p.client_id × IsU64 p.time)
  pub new_connection_fits :
      IsCodec u.new_connection_codec (λ p. IsU64 p.request_time × IsU64 p.timestamp)
  pub disconnect_fits : IsCodec u.disconnect_codec (λ p. Unit)
  pub unconnected_ping_fits :
      IsCodec u.unconnected_ping_codec
        (λ p. IsU64 p.timestamp × (p.magic ≡ new_magic) × IsU64 p.client_id)
  pub unconnected_pong_fits :
      IsCodec u.unconnected_pong_codec
        (λ p. IsU64 p.timestamp × IsU64 p.server_id × (p.magic ≡ new_magic))
  pub open_connect_reply_fits :
      IsCodec u.open_connect_reply_codec
        (λ p. (p.magic ≡ new_magic) × IsU64 p.server_id × (p.mtu_size < 2 ^ 16))
  pub session_info_request_fits :
      IsCodec u.session_info_request_codec
        (λ p. (p.magic ≡ new_magic) × (p.mtu_size < 2 ^ 16) × IsU64 p.client_id)
  pub session_info_reply_fits :
      IsCodec u.session_info_reply_codec
        (λ p. (p.magic ≡ new_magic) × IsU64 p.server_id × (p.mtu_size < 2 ^ 16))
  pub incompatible_protocol_version_fits :
      IsCodec u.incompatible_protocol_version_codec
        (λ p. (p.protocol < 2 ^ 8) × (p.magic ≡ new_magic) × IsU64 p.server_id)

-- A packet whose fields fit their types, with the magic of `Magic::new`.
abbrev pub FitsOnline : OnlinePacket → Type 0
FitsOnline (connected_ping p) = IsU64 p.time
FitsOnline (connected_pong p) = IsU64 p.ping_time × IsU64 p.pong_time
FitsOnline (lost_connection p) = Unit
FitsOnline (connection_request p) = IsU64 p.client_id × IsU64 p.time
FitsOnline (connection_accept p) = Unit
FitsOnline (new_connection p) = IsU64 p.request_time × IsU64 p.timestamp
FitsOnline (disconnect p) = Unit

abbrev pub FitsOffline : OfflinePacket → Type 0
FitsOffline (unconnected_ping p) = IsU64 p.timestamp × (p.magic ≡ new_magic) × IsU64 p.client_id
FitsOffline (open_connect_request p) = (p.magic ≡ new_magic) × (p.protocol < 2 ^ 8)
FitsOffline (open_connect_reply p) =
    (p.magic ≡ new_magic) × IsU64 p.server_id × (p.mtu_size < 2 ^ 16)
FitsOffline (session_info_request p) =
    (p.magic ≡ new_magic) × (p.mtu_size < 2 ^ 16) × IsU64 p.client_id
FitsOffline (session_info_reply p) =
    (p.magic ≡ new_magic) × IsU64 p.server_id × (p.mtu_size < 2 ^ 16)
FitsOffline (unconnected_pong p) = IsU64 p.timestamp × IsU64 p.server_id × (p.magic ≡ new_magic)
FitsOffline (incompatible_protocol_version p) =
    (p.protocol < 2 ^ 8) × (p.magic ≡ new_magic) × IsU64 p.server_id

abbrev pub Fits : Payload → Type 0
Fits (online p) = FitsOnline p
Fits (offline p) = FitsOffline p

-- What the other side reads: a `ConnectionAccept` as one fixed value, and an `OpenConnectRequest` with
-- a size that is 47 greater, as a `u16`.
abbrev pub received : Payload → Payload
received (online (connection_accept p)) = online (
    connection_accept (record {
      client_address = record { ip = v4 192 168 0 1; port = 9120 };
      system_index = 0;
      internal_id = record { ip = v4 127 0 0 1; port = 1920 };
      request_time = 0;
      timestamp = 0;
    }))
received (offline (open_connect_request p)) =
    offline (open_connect_request (record p { mtu_size = (p.mtu_size + 47) % 2 ^ 16 }))
received p = p

-- `m` reads exactly the source from a position on.
ReadsAll : {A : Type 0} → Reader A → List ℕ → ℕ → A → Type 0
ReadsAll m source position a = (end : ℕ) × (m source position ≡ ok (a, end))

length-zeros : (n : ℕ) → length (zeros n) ≡ n
unfolding zeros
length-zeros zero = refl
length-zeros (suc n) = ap suc (length-zeros n)

Reads-compose_magic : Reads compose_magic magic_bytes new_magic
unfolding compose_magic
Reads-compose_magic = record {
  run = λ source rest position e h.
      rw ((Reads-read_slice 16 magic_bytes refl).run source rest position e h, ◌>>=◌) refl;
}

module _ (b : ByteOrder) (u : BinaryUtils) (laws : IsBinaryUtils u) where
  -- A read of what was written, behind the id.
  read_behind :
      {A : Type 0} (m : Reader A) (bs : List ℕ) (a : A) (id : ℕ)
      → Reads m bs a
      → m (id ∷ bs) 1 ≡ ok (a, 1 + length bs)
  read_behind m bs a id reads = reads.run (id ∷ bs) [] 1 (sym (append-nil bs)) (omega arith)

  Arrives : Payload → Type 0
  Arrives p =
      (bs : List ℕ) × (end : ℕ) × (parse_payload b u p ≡ ok bs)
      × (compose_by_id b u (payload_id p) (payload_id p ∷ bs) 1 ≡ ok (received p, end))

  module _ (id : ℕ) {A : Type 0} (c : Codec A) where
    online_arrives :
        (make : A → OnlinePacket) (a : A)
        → Written c a
        → (bs : List ℕ) × (end : ℕ) × (c.parse a ≡ ok bs)
          × (compose_online b u make c.compose (id ∷ bs) 1 ≡ ok (online (make a), end))
    unfolding compose_online
    online_arrives make a (bs, e, reads) =
        (bs, 1 + length bs, e, rw (read_behind c.compose bs a id reads, ◌>>=◌) refl)

    offline_arrives :
        (make : A → OfflinePacket) (a : A)
        → Written c a
        → (bs : List ℕ) × (end : ℕ) × (c.parse a ≡ ok bs)
          × (compose_offline b u make c.compose (id ∷ bs) 1 ≡ ok (offline (make a), end))
    unfolding compose_offline
    offline_arrives make a (bs, e, reads) =
        (bs, 1 + length bs, e, rw (read_behind c.compose bs a id reads, ◌>>=◌) refl)

  -- The size that is read counts the id, the magic, the protocol and the padding, and 29 more.
  request-Arrives :
      (p : OpenConnectRequest)
      → FitsOffline (open_connect_request p)
      → Arrives (offline (open_connect_request p))
  unfolding Arrives parse_payload parse_offline parse_open_connect_request compose_by_id
      compose_offline compose_open_connect_request
  request-Arrives p (magic, small) =
      let padding = zeros p.mtu_size in
      let rest : List ℕ = p.protocol ∷ padding in
      let source : List ℕ = 0x05 ∷ (magic_bytes ++ rest) in
      let size : (length source + 1 + 28) % 2 ^ 16 ≡ (p.mtu_size + 47) % 2 ^ 16 =
        omega (arith, length-zeros p.mtu_size) in
      let first = Reads-compose_magic.run source rest 1 refl (omega arith) in
      let second = (laws.u8_fits p.protocol small).run source padding 17 refl (omega arith) in
      (magic_bytes ++ rest, 18, refl, rw (first, ◌>>=◌, second, ◌>>=◌, size, sym magic) refl)

  online-Arrives : (p : OnlinePacket) → FitsOnline p → Arrives (online p)
  unfolding Arrives parse_payload parse_online compose_by_id compose_connection_accept
      parse_connection_accept compose_online
  online-Arrives (connected_ping p) fits =
      online_arrives 0x00 u.connected_ping_codec connected_ping p (laws.connected_ping_fits p fits)
  online-Arrives (connected_pong p) fits =
      online_arrives 0x03 u.connected_pong_codec connected_pong p (laws.connected_pong_fits p fits)
  online-Arrives (lost_connection p) fits =
      online_arrives 0x04 u.lost_connection_codec lost_connection p
        (laws.lost_connection_fits p fits)
  online-Arrives (connection_request p) fits =
      online_arrives 0x09 u.connection_request_codec connection_request p
        (laws.connection_request_fits p fits)
  online-Arrives (connection_accept p) fits =
      let (client, e) = laws.socket_addr_fits p.client_address in
      let (internal, e') = laws.socket_addr_fits p.internal_id in
      (
        client
            ++ (b.put_i16_be p.system_index
                ++ (times 10 internal
                    ++ (b.put_i64_be p.request_time ++ b.put_i64_be p.timestamp))),
        1,
        rw (e, e') refl,
        refl,
      )
  online-Arrives (new_connection p) fits =
      online_arrives 0x13 u.new_connection_codec new_connection p (laws.new_connection_fits p fits)
  online-Arrives (disconnect p) fits =
      online_arrives 0x15 u.disconnect_codec disconnect p (laws.disconnect_fits p fits)

  offline-Arrives : (p : OfflinePacket) → FitsOffline p → Arrives (offline p)
  unfolding Arrives parse_payload parse_offline compose_by_id
  offline-Arrives (unconnected_ping p) fits =
      offline_arrives 0x01 u.unconnected_ping_codec unconnected_ping p
        (laws.unconnected_ping_fits p fits)
  offline-Arrives (open_connect_request p) fits = request-Arrives p fits
  offline-Arrives (open_connect_reply p) fits =
      offline_arrives 0x06 u.open_connect_reply_codec open_connect_reply p
        (laws.open_connect_reply_fits p fits)
  offline-Arrives (session_info_request p) fits =
      offline_arrives 0x07 u.session_info_request_codec session_info_request p
        (laws.session_info_request_fits p fits)
  offline-Arrives (session_info_reply p) fits =
      offline_arrives 0x08 u.session_info_reply_codec session_info_reply p
        (laws.session_info_reply_fits p fits)
  offline-Arrives (unconnected_pong p) fits =
      offline_arrives 0x1c u.unconnected_pong_codec unconnected_pong p
        (laws.unconnected_pong_fits p fits)
  offline-Arrives (incompatible_protocol_version p) fits =
      offline_arrives 0x19 u.incompatible_protocol_version_codec incompatible_protocol_version p
        (laws.incompatible_protocol_version_fits p fits)

  payload-Arrives : (p : Payload) → Fits p → Arrives p
  payload-Arrives (online p) fits = online-Arrives p fits
  payload-Arrives (offline p) fits = offline-Arrives p fits

  payload_id_small : (p : Payload) → payload_id p < 2 ^ 8
  payload_id_small (online p) = online_small p
    where
      online_small : (p : OnlinePacket) → online_id p < 2 ^ 8
      online_small (connected_ping p) = omega arith
      online_small _ = omega arith
  payload_id_small (offline p) = offline_small p
    where
      offline_small : (p : OfflinePacket) → offline_id p < 2 ^ 8
      offline_small (unconnected_ping p) = omega arith
      offline_small _ = omega arith

  payload_id-received : (p : Payload) → payload_id (received p) ≡ payload_id p
  payload_id-received (online (connected_ping p)) = refl
  payload_id-received (online _) = refl
  payload_id-received (offline (unconnected_ping p)) = refl
  payload_id-received (offline _) = refl

  -- A packet whose numbers fit their types, and whose magic, if it has one, is that of the protocol, is
  -- written without an error. Its bytes are read as the packet of the same id that holds the same fields,
  -- but for two: a `ConnectionAccept` is read as one fixed value, and an `OpenConnectRequest` with a size
  -- that is 47 greater, modulo 2 ^ 16.
  pub compose_packet-parse_packet :
      (p : Payload)
      → Fits p
      → (bs : List ℕ) × (end : ℕ) × (parse b u (packet_of p) ≡ ok bs)
        × (compose b u bs 0 ≡ ok (packet_of (received p), end))
  unfolding Arrives parse compose compose_payload
  compose_packet-parse_packet p fits =
      let (bs, end, e, run) = payload-Arrives p fits in
      let id = payload_id p in
      let first = (laws.u8_fits id (payload_id_small p)).run (id ∷ bs) bs 0 refl (omega arith) in
      (
        id ∷ bs,
        end,
        rw e refl,
        rw (first, ◌>>=◌, run, ◌>>=◌)
            (ap (λ i. ok (record { id = i; payload = received p }, end))
              (sym (payload_id-received p))),
      )
