-- ===== src/Link/Repeats.antt =====
-- Two ticks of one connection, each with one payload in the queue, and the user of another.
use netrex_rak_net.Prelude.{
  ℕ, String, ◌+◌, ◌-◌, ◌^◌, ◌<◌, ◌≤◌, ◌≡◌, refl, sym, ap, subst, ◌∙◌, false, List, [], ◌∷◌, ◌++◌,
  none, Result, ok, arith, append_assoc,
}
use netrex_rak_net.Prelude.Table.{get, get-insert}
use netrex_rak_net.Address.{Resolver}
use netrex_rak_net.Wire.{ByteOrder, IsByteOrder}
use netrex_rak_net.Queue
use netrex_rak_net.Queue.{normal}
use netrex_rak_net.Meta.{index_at}
use netrex_rak_net.Meta.Counters.{HasRoom}
use netrex_rak_net.Connection.{Connection}
use netrex_rak_net.Packet.{BinaryUtils}
use netrex_rak_net.Packet.Codecs.RoundTrip.{IsBinaryUtils}
use netrex_rak_net.Acknowledge.Resent.{to}
use netrex_rak_net.Send.{send_stream}
use netrex_rak_net.Tick.{tick}
use netrex_rak_net.Tick.Idle.{IsRecent, IsIdle}
use netrex_rak_net.Tick.Queued.{
  CarriesFragment, AllCarryFragments, CarriesFragment-later, Emptied, tick-carries,
}
use netrex_rak_net.Receive.{recv}
use netrex_rak_net.Receive.Parts.{part}
use netrex_rak_net.Link.{IsGame, events}
use netrex_rak_net.Link.Fragments.{recv-fragment, recv-fragment_stale}
use netrex_rak_net.Link.Ticked.{IsGame-FitsOne}

-- The connection holds just the payload in its queue.
abbrev pub holding : Connection → List ℕ → Connection
holding c payload = record c { queue = record { normal = payload ∷ []; low = []; frozen = false } }

only-datagram :
    (b : ByteOrder) (start : ℕ) (datagrams : List (List ℕ)) (payload : List ℕ)
    → AllCarryFragments b start 0 datagrams (payload ∷ [])
    → (bytes : List ℕ) × (datagrams ≡ bytes ∷ []) × CarriesFragment b start 0 bytes payload
only-datagram b start [] payload all = absurd all
only-datagram b start (bytes ∷ []) payload all = (bytes, refl, all.0)
only-datagram b start (bytes ∷ bytes' ∷ rest) payload all = absurd all.1

module _ (b : ByteOrder) (u : BinaryUtils) (r : Resolver)
    (fparse : Result (List ℕ) → Result (List ℕ)) where
  -- One payload in one tick is in one datagram.
  tick-one :
      (now n : ℕ) (c : Connection) (payload : List ℕ)
      → IsByteOrder b
      → ((bs : List ℕ) → fparse (ok bs) ≡ ok bs)
      → HasRoom (1 + n) c.rakhandler
      → IsIdle now c.rakhandler
      → c.mtu < 2 ^ 16
      → IsGame (c.mtu - 10) payload
      → (bytes : List ℕ) × (d : Connection) × (tick b fparse now (holding c payload) ≡ ok d)
        × (d.sent ≡ c.sent ++ ((c.address, bytes) ∷ []))
        × CarriesFragment b (index_at 0 c.rakhandler.order_index) 0 bytes payload
        × Emptied n now (record c { queue = Queue.empty }) d
  unfolding Queue.flush Queue.empty
  tick-one now n c payload order_laws unwraps fits idle small game =
      let (datagrams, d, ticks, out, all, emptied) =
        tick-carries b fparse now order_laws unwraps (holding c payload) n fits idle (omega arith)
          small (IsGame-FitsOne c.mtu payload game, tt) in
      let (bytes, e, carries) =
        only-datagram b (index_at 0 c.rakhandler.order_index) datagrams payload all in
      (bytes, d, ticks, out ∙ ap (λ ds. c.sent ++ to c.address ds) e, carries, emptied)

  -- Two payloads of a game are each shorter than 8 KiB and at least 80 bytes shorter than the MTU, which
  -- is below 2 ^ 16. The first is all that the queue of a connection holds, whose counters have room for
  -- two messages, and which has, at the times of both ticks, nothing to ask for, to acknowledge and to
  -- send again. It ticks, then its user sends the second payload at normal priority, and it ticks again,
  -- not before the first time and within six seconds. Both ticks return, and each sends one datagram; the
  -- second reads back as one frame with the second payload, as its only fragment under the id 0. Another
  -- connection that keeps no fragments under the id 0, and whose window starts at the sender's order index
  -- or before, receives the two datagrams in order. Then its user gets the first payload twice, and never
  -- the second. (A payload of a game starts with a byte above 0x1c that is not that of an ACK or a NACK.)
  pub recv-tick_repeats :
      (now next later : ℕ) (c d : Connection) (first second : List ℕ)
      → IsByteOrder b
      → IsBinaryUtils u
      → ((bs : List ℕ) → fparse (ok bs) ≡ ok bs)
      → HasRoom 2 c.rakhandler
      → IsIdle now c.rakhandler
      → IsIdle next c.rakhandler
      → IsRecent next now
      → c.mtu < 2 ^ 16
      → IsGame (c.mtu - 10) first
      → IsGame (c.mtu - 10) second
      → d.rakhandler.ordered_channels.scope.0 ≤ index_at 0 c.rakhandler.order_index
      → get 0 d.rakhandler.fragmented_frames ≡ none
      → (bytes bytes' : List ℕ) × (c1 c2 c3 d1 d2 : Connection) × (tick b fparse now
            (holding c first)
          ≡ ok c1)
        × (send_stream b fparse now c1 second normal ≡ ok c2)
        × (tick b fparse next c2 ≡ ok c3)
        × (c3.sent ≡ (c.sent ++ ((c.address, bytes) ∷ [])) ++ ((c.address, bytes') ∷ []))
        × CarriesFragment b (index_at 0 c.rakhandler.order_index) 0 bytes' second
        × (recv b u r fparse later d bytes ≡ ok d1)
        × (recv b u r fparse later d1 bytes' ≡ ok d2)
        × (d2.event_dispatch ≡ d.event_dispatch ++ events d (first ∷ first ∷ []))
  unfolding send_stream Queue.push Queue.empty
  recv-tick_repeats now next later c d first second order_laws laws unwraps fits idle idle' recent
        small game game' within new =
      let (bytes, c1, ticks, out, carries, emptied) =
        tick-one now 1 c first order_laws unwraps fits idle small game in
      let core_kept = emptied.same_core in
      let mtu_kept : c1.mtu ≡ c.mtu = ap (λ x. x.mtu) core_kept in
      let pushed =
        ap (λ q. ok (record c1 { queue = Queue.push q second normal }))
          (ap (λ x. x.queue) core_kept) in
      let (bytes', c3, ticks', out', carries', _) =
        tick-one next 0 c1 second order_laws unwraps emptied.has_room
          (emptied.idle_stays next recent idle') (rw mtu_kept small)
          (subst (λ m. IsGame (m - 10) second) (sym mtu_kept) game') in
      let start = d.rakhandler.ordered_channels.scope.0 in
      let (d1, g, receives, h, kept, only) =
        recv-fragment b u r fparse later laws d (c.mtu - 10) 0 bytes first game
          (CarriesFragment-later b start _ 0 bytes first within carries) new in
      let (d2, receives', h') =
        recv-fragment_stale b u r fparse later laws d1 (c.mtu - 10) 0 bytes' second first g game
          (CarriesFragment-later b _ _ 0 bytes' second
            (omega (arith, h.same_start, within, emptied.order_grows)) carries')
          (ap (get 0) kept ∙ rw (get-insert 0 0 (part g ∷ []) d.rakhandler.fragmented_frames) refl)
          only in
      (
        bytes,
        bytes',
        c1,
        holding c1 second,
        c3,
        d1,
        d2,
        ticks,
        pushed,
        ticks',
        out'
            ∙ ap (λ x. x ++ ((c1.address, bytes') ∷ [])) out
            ∙ ap (λ (a : String). (c.sent ++ ((c.address, bytes) ∷ [])) ++ ((a, bytes') ∷ []))
                (ap (λ x. x.address) core_kept),
        CarriesFragment-later b _ _ 0 bytes' second emptied.order_grows carries',
        receives,
        receives',
        h'.dispatched
            ∙ rw (h.dispatched, h.same_address)
                (append_assoc d.event_dispatch (events d (first ∷ [])) (events d (first ∷ []))),
      )
