-- ===== src/Registry/Undone.antt =====
-- What comes of a listener's answer that a client shall be disconnected.
use netrex_rak_net.Prelude.{ℕ, ◌≡◌, refl, String, List, ◌∷◌, Option, some, Result, ok}
use netrex_rak_net.Address.{Resolver}
use netrex_rak_net.Wire.{ByteOrder}
use netrex_rak_net.State
use netrex_rak_net.Server.{RakEvent}
use netrex_rak_net.Connection.{Connection}
use netrex_rak_net.Packet.{BinaryUtils}
use netrex_rak_net.Packet.Codecs.RoundTrip.{IsBinaryUtils}
use netrex_rak_net.Receive.{recv}
use netrex_rak_net.Link.{IsGame}
use netrex_rak_net.Link.Received.{Carries, Handed, recv-Carries}
use netrex_rak_net.Registry.{RakResult, disconnect, answered, emit}

module _ (b : ByteOrder) (u : BinaryUtils) (r : Resolver)
    (fparse : Result (List ℕ) → Result (List ℕ)) (now : ℕ) where
  -- The listener answers an event of a client by `RakResult::Disconnect`. Then the loop over its events
  -- ends, its state is offline, and nothing else of it changes: so it is not marked to be dropped,
  -- unless it was. The next datagram of one ordered frame with a payload of a game, under an order
  -- index of its window, is still handed to the user, and makes its state connected.
  pub recv-emit_undoes :
      (c : Connection) (answer : ℕ → RakEvent → Option RakResult) (n mtu : ℕ) (event : RakEvent)
      (events : List RakEvent) (reason : String) (bytes payload : List ℕ)
      → IsBinaryUtils u
      → answer n event ≡ some (disconnect reason)
      → IsGame mtu payload
      → Carries b c.rakhandler.ordered_channels.scope.0 bytes payload
      → (d e : Connection) × (emit answer n (event ∷ events) c ≡ ok d)
        × (d ≡ record c { state = State.offline })
        × (recv b u r fparse now d bytes ≡ ok e)
        × (e.state ≡ State.connected)
        × Handed d e payload
  unfolding emit answered State.is_reliable
  recv-emit_undoes c answer n mtu event events reason bytes payload laws answers game carries =
      let d : Connection = record c { state = State.offline } in
      let (e, received, h) = recv-Carries b u r fparse now laws d mtu bytes payload game carries in
      (d, e, rw answers refl, refl, received, h.settled_state, h)
