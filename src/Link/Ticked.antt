-- ===== src/Link/Ticked.antt =====
-- The queue of one connection, over its ticks, and the user of another.
use netrex_rak_net.Prelude.{
  ℕ, suc, ◌+◌, ◌-◌, ◌^◌, ◌<◌, ◌≤◌, ◌≡◌, refl, sym, ap, subst, ◌∙◌, List, [], ◌∷◌, ◌++◌, none,
  length, Result, ok, arith, append_assoc, append-nil, All,
}
use netrex_rak_net.Prelude.Table.{get, insert, get-insert}
use netrex_rak_net.Address.{Resolver}
use netrex_rak_net.Wire.{ByteOrder, IsByteOrder}
use netrex_rak_net.Meta.{index_at}
use netrex_rak_net.Meta.Counters.{HasRoom, HasRoom-fewer}
use netrex_rak_net.Connection.{Connection}
use netrex_rak_net.Packet.{BinaryUtils}
use netrex_rak_net.Packet.Codecs.RoundTrip.{IsBinaryUtils}
use netrex_rak_net.Acknowledge.Resent.{to}
use netrex_rak_net.Tick.{tick}
use netrex_rak_net.Tick.Idle.{IsIdle}
use netrex_rak_net.Tick.Queued.{FitsOne, AllCarryFragments, AllCarryFragments-later, tick-carries}
use netrex_rak_net.Link.{IsGame, events, recv_all}
use netrex_rak_net.Link.Fragments.{recv-fragment}

-- Nothing is kept under the ids from `id` on.
abbrev Unused {ℓ} : {V : Type ℓ} → ℕ → List (ℕ × V) → Type ℓ
Unused id t = (j : ℕ) → id ≤ j → get j t ≡ none

Unused-insert :
    {V : Type 0} (id : ℕ) (v : V) (t s : List (ℕ × V))
    → Unused id t
    → s ≡ insert id v t
    → Unused (id + 1) s
Unused-insert id v t s unused e j h =
    rw (e, get-insert id j v t) (ground (arith, unused j (omega arith)))

pub IsGame-FitsOne : (mtu : ℕ) (payload : List ℕ) → IsGame (mtu - 10) payload → FitsOne mtu payload
IsGame-FitsOne mtu [] game = absurd game
IsGame-FitsOne mtu (id ∷ rest) (above, byte, other, holds, body) = (omega arith, omega arith, body)

All-FitsOne :
    (mtu : ℕ) (payloads : List (List ℕ))
    → All (IsGame (mtu - 10)) payloads
    → All (FitsOne mtu) payloads
All-FitsOne mtu [] games = tt
All-FitsOne mtu (payload ∷ payloads) games =
    (IsGame-FitsOne mtu payload games.0, All-FitsOne mtu payloads games.1)

module _ (b : ByteOrder) (u : BinaryUtils) (r : Resolver)
    (fparse : Result (List ℕ) → Result (List ℕ)) where
  -- What is received of the datagrams of one tick, in their order.
  recv_all-fragments :
      (now mtu id : ℕ) (datagrams payloads : List (List ℕ)) (c : Connection)
      → IsBinaryUtils u
      → All (IsGame mtu) payloads
      → AllCarryFragments b c.rakhandler.ordered_channels.scope.0 id datagrams payloads
      → Unused id c.rakhandler.fragmented_frames
      → (d : Connection) × (recv_all b fparse now u r c datagrams ≡ ok d)
        × (d.event_dispatch ≡ c.event_dispatch ++ events c payloads)
        × (d.sent ≡ c.sent)
        × (length datagrams ≡ length payloads)
  unfolding recv_all
  recv_all-fragments now mtu id [] [] c laws games all unused =
      (c, refl, sym (append-nil c.event_dispatch), refl, refl)
  recv_all-fragments now mtu id [] (payload ∷ payloads) c laws games all unused = absurd all
  recv_all-fragments now mtu id (bytes ∷ rest) [] c laws games all unused = absurd all
  recv_all-fragments now mtu id (bytes ∷ rest) (payload ∷ payloads) c laws games (carries, all)
        unused =
      let (d, g, received, h, kept, only) =
        recv-fragment b u r fparse now laws c mtu id bytes payload games.0 carries
          (unused id (omega arith)) in
      let (e, run, dispatched, same, count) =
        recv_all-fragments now mtu (id + 1) rest payloads d laws games.1
          (subst (λ n. AllCarryFragments b n (id + 1) rest payloads) (sym h.same_start) all)
          (Unused-insert id _ c.rakhandler.fragmented_frames d.rakhandler.fragmented_frames unused
            kept) in
      (
        e,
        rw received run,
        dispatched
            ∙ rw (h.dispatched, h.same_address)
                (append_assoc c.event_dispatch (events c (payload ∷ [])) (events c payloads)),
        same ∙ h.same_sent,
        ap suc count,
      )

  -- A connection ticks with fewer than 2 ^ 16 payloads of a game in its queue, each shorter than 8 KiB and
  -- at least 80 bytes shorter than the MTU, which is below 2 ^ 16, with room for them in its counters and
  -- with nothing to ask for, to acknowledge and to send again. That returns, and sends a datagram for
  -- each. Another connection that keeps no fragments, and whose window starts at the sender's order index
  -- or before, receives those datagrams in their order. Then its user gets the payloads of normal
  -- priority, in order, and behind them those of low priority, in order, and nothing is sent back. (A
  -- payload of a game starts with a byte above 0x1c that is not that of an ACK or a NACK.)
  pub recv_all-tick :
      (now later : ℕ) (c d : Connection)
      → IsByteOrder b
      → IsBinaryUtils u
      → ((bs : List ℕ) → fparse (ok bs) ≡ ok bs)
      → HasRoom (length (c.queue.normal ++ c.queue.low)) c.rakhandler
      → IsIdle now c.rakhandler
      → length (c.queue.normal ++ c.queue.low) < 2 ^ 16
      → c.mtu < 2 ^ 16
      → All (IsGame (c.mtu - 10)) (c.queue.normal ++ c.queue.low)
      → d.rakhandler.ordered_channels.scope.0 ≤ index_at 0 c.rakhandler.order_index
      → d.rakhandler.fragmented_frames ≡ []
      → (datagrams : List (List ℕ)) × (c' : Connection) × (d' : Connection) × (tick b fparse now c
          ≡ ok c')
        × (c'.sent ≡ c.sent ++ to c.address datagrams)
        × (length datagrams ≡ length (c.queue.normal ++ c.queue.low))
        × (recv_all b fparse later u r d datagrams ≡ ok d')
        × (d'.event_dispatch ≡ d.event_dispatch ++ events d (c.queue.normal ++ c.queue.low))
        × (d'.sent ≡ d.sent)
  recv_all-tick now later c d order_laws laws unwraps fits idle few small games within new =
      let payloads = c.queue.normal ++ c.queue.low in
      let (datagrams, c', ticks, out, all, emptied) =
        tick-carries b fparse now order_laws unwraps c 0
          (HasRoom-fewer (length payloads + 0) (length payloads) c.rakhandler (omega arith) fits)
          idle few small (All-FitsOne c.mtu payloads games) in
      let (d', receives, dispatched, same, count) =
        recv_all-fragments later (c.mtu - 10) 0 datagrams payloads d laws games
          (AllCarryFragments-later b _ _ 0 datagrams payloads within all) (λ j h. rw new refl) in
      (datagrams, c', d', ticks, out, count, receives, dispatched, same)
