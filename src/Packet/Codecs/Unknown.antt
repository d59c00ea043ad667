-- ===== src/Packet/Codecs/Unknown.antt =====
-- Bytes that are no packet of the protocol.
use Prim.Native.String
use netrex_rak_net.Prelude.{ℕ, ◌^◌, ◌<◌, ◌≡◌, refl, List, ◌∷◌, err, Error, recoverable_known, arith}
use netrex_rak_net.Decimal.{to_string}
use netrex_rak_net.Wire.{ByteOrder, ◌>>=◌}
use netrex_rak_net.Packet.Codecs.{BinaryUtils, compose, compose_payload, compose_by_id}
use netrex_rak_net.Packet.Codecs.RoundTrip.{IsBinaryUtils}

module _ (b : ByteOrder) (u : BinaryUtils) (laws : IsBinaryUtils u) where
  compose_by_id-unknown :
      (id : ℕ) (source : List ℕ) (position : ℕ)
      → 0x1c < id
      → compose_by_id b u id source position
        ≡ err (recoverable_known (String.◌++◌ "Id is not a valid raknet packet: " (to_string id)))
  unfolding compose_by_id
  compose_by_id-unknown id source position above = ground arith

  -- A first byte above the ids of the packets is an error.
  pub compose-unknown :
      (id : ℕ) (rest : List ℕ)
      → 0x1c < id
      → id < 2 ^ 8
      → (e : Error) × (compose b u (id ∷ rest) 0 ≡ err e)
  unfolding compose compose_payload
  compose-unknown id rest above byte = (
    recoverable_known (String.◌++◌ "Id is not a valid raknet packet: " (to_string id)),
    rw
        (
          (laws.u8_fits id byte).run (id ∷ rest) rest 0 refl (omega arith),
          ◌>>=◌,
          compose_by_id-unknown id (id ∷ rest) 1 above,
        )
        refl,
  )
