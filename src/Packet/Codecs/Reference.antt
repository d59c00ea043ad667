-- ===== src/Packet/Codecs/Reference.antt =====
-- A `BinaryUtils` written out, to which the laws apply: each field of a packet takes one element.
pub mod Handshake
use netrex_rak_net.Prelude.{
  ℕ, zero, suc, ◌+◌, ◌≡◌, refl, ap, ◌∙◌, subst, Bool, true, false, ◌==◌, if◌then◌else◌, List, [],
  ◌∷◌, length, ok, arith,
}
use netrex_rak_net.Address.{IpAddr, SocketAddr, v4, v6}
use netrex_rak_net.Wire.{◌>>=◌, done, read_u8, read_exact}
use netrex_rak_net.Wire.Reads.{Reads, Reads->>=_done, Reads-read_u8, Reads-read_exact}
use netrex_rak_net.Packet.Data.{disconnect_packet, lost_connection_packet, new_magic}
use netrex_rak_net.Packet.Codecs.{Codec, BinaryUtils}
use netrex_rak_net.Packet.Codecs.RoundTrip.{IsCodec, IsBinaryUtils}

abbrev at : ℕ → List ℕ → ℕ
at n [] = 0
at zero (x ∷ xs) = x
at (suc n) (x ∷ xs) = at n xs

-- A value is written as the list of its fields.
coded : {A : Type 0} → ℕ → (A → List ℕ) → (List ℕ → A) → Codec A
coded width to_fields of_fields = record {
  compose = read_exact width >>= λ fields. done (of_fields fields);
  parse = λ a. ok (to_fields a);
}

coded-IsCodec :
    {A : Type 0} {fits : A → Type 0} (width : ℕ) (to_fields : A → List ℕ) (of_fields : List ℕ → A)
    → ((a : A) → length (to_fields a) ≡ width)
    → ((a : A) → fits a → of_fields (to_fields a) ≡ a)
    → IsCodec (coded width to_fields of_fields) fits
unfolding coded
coded-IsCodec width to_fields of_fields size back a h = (
  to_fields a,
  refl,
  subst (λ x. Reads ((coded width to_fields of_fields).compose) (to_fields a) x) (back a h)
      (Reads->>=_done of_fields (Reads-read_exact width (to_fields a) (size a))),
)

abbrev to_bit : Bool → ℕ
to_bit true = 1
to_bit false = 0

abbrev of_bit : ℕ → Bool
of_bit n = n == 1

of_bit-to_bit : (x : Bool) → of_bit (to_bit x) ≡ x
of_bit-to_bit true = refl
of_bit-to_bit false = refl

abbrev ip_to : IpAddr → ℕ → List ℕ → List ℕ
ip_to (v4 x y z w) port rest = 4 ∷ x ∷ y ∷ z ∷ w ∷ port ∷ rest
ip_to (v6 n) port rest = 6 ∷ n ∷ 0 ∷ 0 ∷ 0 ∷ port ∷ rest

abbrev address_to : SocketAddr → List ℕ → List ℕ
address_to a rest = ip_to a.ip a.port rest

abbrev address_of : ℕ → List ℕ → SocketAddr
address_of n fs = record {
  ip =
      if at n fs == 4
      then v4 (at (n + 1) fs) (at (n + 2) fs) (at (n + 3) fs) (at (n + 4) fs)
      else v6 (at (n + 1) fs);
  port = at (n + 5) fs;
}

unfoldable pub reference_codecs : BinaryUtils
unfolding coded
reference_codecs = record {
  u8 = record { compose = read_u8; parse = λ n. ok (n ∷ []) };
  socket_addr = coded 6 (λ a. address_to a []) (address_of 0);
  connected_ping_codec = coded 1 (λ p. p.time ∷ []) (λ fs. record { time = at 0 fs });
  connected_pong_codec =
      coded 2 (λ p. p.ping_time ∷ p.pong_time ∷ [])
        (λ fs. record { ping_time = at 0 fs; pong_time = at 1 fs });
  lost_connection_codec = coded 0 (λ p. []) (λ fs. lost_connection_packet);
  connection_request_codec =
      coded 2 (λ p. p.client_id ∷ p.time ∷ [])
        (λ fs. record { client_id = at 0 fs; time = at 1 fs });
  new_connection_codec =
      coded 14
        (λ p.
          p.request_time
          ∷ p.timestamp
          ∷ address_to p.server_address (address_to p.system_address []))
        (λ fs. record {
          server_address = address_of 2 fs;
          system_address = address_of 8 fs;
          request_time = at 0 fs;
          timestamp = at 1 fs;
        });
  disconnect_codec = coded 0 (λ p. []) (λ fs. disconnect_packet);
  unconnected_ping_codec =
      coded 2 (λ p. p.timestamp ∷ p.client_id ∷ [])
        (λ fs. record { timestamp = at 0 fs; magic = new_magic; client_id = at 1 fs });
  unconnected_pong_codec =
      coded 2 (λ p. p.timestamp ∷ p.server_id ∷ [])
        (λ fs. record { timestamp = at 0 fs; server_id = at 1 fs; magic = new_magic });
  open_connect_reply_codec =
      coded 3 (λ p. p.server_id ∷ to_bit p.security ∷ p.mtu_size ∷ [])
        (λ fs. record {
          magic = new_magic;
          server_id = at 0 fs;
          security = of_bit (at 1 fs);
          mtu_size = at 2 fs;
        });
  session_info_request_codec =
      coded 8 (λ p. p.mtu_size ∷ p.client_id ∷ address_to p.address [])
        (λ fs. record {
          magic = new_magic;
          address = address_of 2 fs;
          mtu_size = at 0 fs;
          client_id = at 1 fs;
        });
  session_info_reply_codec =
      coded 9 (λ p. p.server_id ∷ p.mtu_size ∷ to_bit p.security ∷ address_to p.client_address [])
        (λ fs. record {
          magic = new_magic;
          server_id = at 0 fs;
          client_address = address_of 3 fs;
          mtu_size = at 1 fs;
          security = of_bit (at 2 fs);
        });
  incompatible_protocol_version_codec =
      coded 2 (λ p. p.protocol ∷ p.server_id ∷ [])
        (λ fs. record { protocol = at 0 fs; magic = new_magic; server_id = at 1 fs });
}

length-ip_to :
    (ip : IpAddr) (port : ℕ) (rest : List ℕ) → length (ip_to ip port rest) ≡ 6 + length rest
length-ip_to (v4 x y z w) port rest = omega arith
length-ip_to (v6 n) port rest = omega arith

length-two :
    (a c : SocketAddr) (rest : List ℕ)
    → length (address_to a (address_to c rest)) ≡ 12 + length rest
length-two a c rest =
    omega (arith, length-ip_to a.ip a.port (address_to c rest), length-ip_to c.ip c.port rest)

-- An address behind up to three fields.
address_of-address_to :
    (x y z : ℕ) (ip : IpAddr) (port : ℕ) (rest : List ℕ)
    → (address_of 2 (x ∷ y ∷ ip_to ip port rest) ≡ record { ip = ip; port = port })
      × (address_of 3 (x ∷ y ∷ z ∷ ip_to ip port rest) ≡ record { ip = ip; port = port })
address_of-address_to x y z (v4 s t v w) port rest = (refl, refl)
address_of-address_to x y z (v6 n) port rest = (refl, refl)

second_address :
    (x y : ℕ) (i j : IpAddr) (p q : ℕ) (rest : List ℕ)
    → address_of 8 (x ∷ y ∷ ip_to i p (ip_to j q rest)) ≡ record { ip = j; port = q }
second_address x y (v4 s t v w) (v4 s' t' v' w') p q rest = refl
second_address x y (v4 s t v w) (v6 n) p q rest = refl
second_address x y (v6 n) (v4 s' t' v' w') p q rest = refl
second_address x y (v6 n) (v6 m) p q rest = refl

pub reference_codecs-IsBinaryUtils : IsBinaryUtils reference_codecs
unfolding coded reference_codecs
reference_codecs-IsBinaryUtils = record {
  u8_fits = λ n h. Reads-read_u8 n;
  socket_addr_fits = λ a. (address_to a [], refl);
  connected_ping_fits = coded-IsCodec 1 _ _ (λ p. refl) (λ p h. refl);
  connected_pong_fits = coded-IsCodec 2 _ _ (λ p. refl) (λ p h. refl);
  lost_connection_fits =
      coded-IsCodec 0 _ _ (λ p. refl)
        (λ p h. elim p as (λ k. lost_connection_packet ≡ k) [ lost_connection_packet ↦ refl ]);
  connection_request_fits = coded-IsCodec 2 _ _ (λ p. refl) (λ p h. refl);
  new_connection_fits =
      coded-IsCodec 14 _ _ (λ p. omega (arith, length-two p.server_address p.system_address []))
        (λ p h.
          let first =
            (address_of-address_to p.request_time p.timestamp 0 p.server_address.ip
              p.server_address.port (address_to p.system_address [])).0 in
          let second =
            second_address p.request_time p.timestamp p.server_address.ip p.system_address.ip
              p.server_address.port p.system_address.port [] in
          ap
            (λ (a : SocketAddr). record p {
              server_address = a;
              system_address = address_of 8 (
                  p.request_time
                  ∷ p.timestamp
                  ∷ address_to p.server_address (address_to p.system_address []));
            })
            first
          ∙ ap (λ (a : SocketAddr). record p { system_address = a }) second);
  disconnect_fits =
      coded-IsCodec 0 _ _ (λ p. refl)
        (λ p h. elim p as (λ k. disconnect_packet ≡ k) [ disconnect_packet ↦ refl ]);
  unconnected_ping_fits = coded-IsCodec 2 _ _ (λ p. refl) (λ p h. rw (h.1) refl);
  unconnected_pong_fits = coded-IsCodec 2 _ _ (λ p. refl) (λ p h. rw (h.2) refl);
  open_connect_reply_fits =
      coded-IsCodec 3 _ _ (λ p. refl) (λ p h. rw (h.0, of_bit-to_bit p.security) refl);
  session_info_request_fits =
      coded-IsCodec 8 _ _ (λ p. omega (arith, length-ip_to p.address.ip p.address.port []))
        (λ p h. rw (h.0) (
          ap (λ (a : SocketAddr). record p { magic = new_magic; address = a })
            (address_of-address_to p.mtu_size p.client_id 0 p.address.ip p.address.port []).0));
  session_info_reply_fits =
      coded-IsCodec 9 _ _
        (λ p. omega (arith, length-ip_to p.client_address.ip p.client_address.port []))
        (λ p h.
          rw (h.0, of_bit-to_bit p.security)
            (ap (λ (a : SocketAddr). record p { magic = new_magic; client_address = a })
              (address_of-address_to p.server_id p.mtu_size (to_bit p.security) p.client_address.ip
                p.client_address.port []).1));
  incompatible_protocol_version_fits = coded-IsCodec 2 _ _ (λ p. refl) (λ p h. rw (h.1) refl);
}

pub disconnect_bytes : reference_codecs.disconnect_codec.parse disconnect_packet ≡ ok []
unfolding coded reference_codecs
disconnect_bytes = refl
