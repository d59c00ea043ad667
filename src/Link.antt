-- ===== src/Link.antt =====
-- Two connections and the network between them: `Connection::send_stream` on the one side and
-- `Connection::recv` on the other, src/connection/conn.rs, for payloads that fit one datagram.
pub mod Sent
pub mod Received
pub mod Refines
pub mod Fragments
pub mod Ticked
pub mod Repeats
pub mod Packets
pub mod Handshake
use netrex_rak_net.Prelude.{
  ℕ, zero, suc, ◌+◌, ◌^◌, ◌<◌, ◌≤◌, ◌≡◌, ◌||◌, false, List, [], ◌∷◌, ◌++◌, map, length, ◌==◌,
  Result, ok, ◌>>=◌,
}
use netrex_rak_net.Address.{Resolver}
use netrex_rak_net.Wire.{ByteOrder}
use netrex_rak_net.Queue.{immediate}
use netrex_rak_net.Server.{RakEvent, game_packet}
use netrex_rak_net.Connection.{Connection}
use netrex_rak_net.Packet.{BinaryUtils}
use netrex_rak_net.Send.{send_stream}
use netrex_rak_net.Receive.{recv}

-- A payload of a game in one datagram of at most `mtu` bytes: its first byte is above the ids of the
-- protocol's packets, and is not that of an ACK or a NACK.
abbrev pub IsGame : ℕ → List ℕ → Type 0
IsGame mtu [] = ⊥
IsGame mtu (id ∷ rest) =
    (0x1c < id)
    × (id < 2 ^ 8)
    × ((id == 0xa0 || id == 0xc0) ≡ false)
    × (length (id ∷ rest) + 70 ≤ mtu)
    × (length (id ∷ rest) < 8192)

-- What the other side hands to the user for the payloads that it is given.
abbrev pub events : Connection → List (List ℕ) → List RakEvent
events d = map λ payload. game_packet d.address payload

-- A position past the end takes nothing.
unfoldable pub item {ℓ} : {A : Type ℓ} → ℕ → List A → List A
item n [] = []
item zero (x ∷ xs) = x ∷ []
item (suc n) (x ∷ xs) = item n xs

-- What arrives over a network that loses, repeats and reorders: the items at the given positions, in the
-- order of the positions.
unfoldable pub arriving {ℓ} : {A : Type ℓ} → List ℕ → List A → List A
arriving [] xs = []
arriving (n ∷ ns) xs = item n xs ++ arriving ns xs

module _ (b : ByteOrder) (fparse : Result (List ℕ) → Result (List ℕ)) (now : ℕ) where
  -- The payloads are sent at once, one after another.
  pub send_all : Connection → List (List ℕ) → Result Connection
  send_all c [] = ok c
  send_all c (payload ∷ payloads) =
      send_stream b fparse now c payload immediate >>= λ c'. send_all c' payloads

  -- The datagrams are received one after another.
  pub recv_all : BinaryUtils → Resolver → Connection → List (List ℕ) → Result Connection
  recv_all u r d [] = ok d
  recv_all u r d (bytes ∷ rest) = recv b u r fparse now d bytes >>= λ d'. recv_all u r d' rest
