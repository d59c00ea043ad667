-- ===== src/Link/Refines.antt =====
-- Both sides: what the user of the one connection sends is what the user of the other gets.
use netrex_rak_net.Prelude.{
  ℕ, zero, suc, ◌^◌, ◌<◌, ◌≤◌, ◌≡◌, refl, sym, ap, subst, ◌∙◌, List, [], ◌∷◌, ◌++◌, length, Result,
  ok, append_assoc, append-nil, All,
}
use netrex_rak_net.Address.{Resolver}
use netrex_rak_net.Wire.{ByteOrder, IsByteOrder}
use netrex_rak_net.Meta.{index_at}
use netrex_rak_net.Meta.Counters.{HasRoom}
use netrex_rak_net.Connection.{Connection}
use netrex_rak_net.Packet.{BinaryUtils}
use netrex_rak_net.Packet.Codecs.RoundTrip.{IsBinaryUtils}
use netrex_rak_net.Acknowledge.Resent.{to}
use netrex_rak_net.Link.{IsGame, events, item, arriving, send_all, recv_all}
use netrex_rak_net.Link.Received.{Carries, recv-Carries}
use netrex_rak_net.Link.Sent.{AllCarry, AllCarry-later, send_all_carries}

AllCarry-length :
    (b : ByteOrder) (start : ℕ) (datagrams payloads : List (List ℕ))
    → AllCarry b start datagrams payloads
    → length datagrams ≡ length payloads
AllCarry-length b start [] [] all = refl
AllCarry-length b start [] (payload ∷ payloads) all = absurd all
AllCarry-length b start (bytes ∷ rest) [] all = absurd all
AllCarry-length b start (bytes ∷ rest) (payload ∷ payloads) (is, all) =
    ap suc (AllCarry-length b start rest payloads all)

module _ (b : ByteOrder) (u : BinaryUtils) (r : Resolver)
    (fparse : Result (List ℕ) → Result (List ℕ)) (now : ℕ) (laws : IsBinaryUtils u) (mtu : ℕ) where
  -- `d` is `c` after the payloads were handed to the user.
  record HandedAll (c d : Connection) (payloads : List (List ℕ)) : Type 0 where
    all_dispatched : d.event_dispatch ≡ c.event_dispatch ++ events c payloads
    all_sent : d.sent ≡ c.sent

  -- What is received of a list of datagrams that carry payloads.
  Receives : ℕ → List (List ℕ) → List (List ℕ) → Type 0
  Receives start datagrams payloads =
      (c : Connection)
      → c.rakhandler.ordered_channels.scope.0 ≡ start
      → (d : Connection) × (recv_all b fparse now u r c datagrams ≡ ok d) × HandedAll c d payloads

  Receives-nil : (start : ℕ) → Receives start [] []
  unfolding Receives recv_all
  Receives-nil start c at =
      (c, refl, record { all_dispatched = sym (append-nil c.event_dispatch); all_sent = refl })

  Receives-cons :
      (start : ℕ) (bytes payload : List ℕ) (datagrams payloads : List (List ℕ))
      → IsGame mtu payload
      → Carries b start bytes payload
      → Receives start datagrams payloads
      → Receives start (bytes ∷ datagrams) (payload ∷ payloads)
  unfolding Receives recv_all
  Receives-cons start bytes payload datagrams payloads game carries rest c at =
      let (d, received, h) =
        recv-Carries b u r fparse now laws c mtu bytes payload game
          (subst (λ n. Carries b n bytes payload) (sym at) carries) in
      let (e, all, g) = rest d (h.same_start ∙ at) in
      (
        e,
        rw received all,
        record {
          all_dispatched =
              g.all_dispatched
              ∙ rw (h.dispatched, h.same_address)
                  (append_assoc c.event_dispatch (events c (payload ∷ [])) (events c payloads));
          all_sent = g.all_sent ∙ h.same_sent;
        },
      )

  -- The datagram at a position, if there is one, in front of others.
  Receives-item :
      (start n : ℕ) (datagrams payloads more rest : List (List ℕ))
      → All (IsGame mtu) payloads
      → AllCarry b start datagrams payloads
      → Receives start more rest
      → Receives start (item n datagrams ++ more) (item n payloads ++ rest)
  unfolding item
  Receives-item start n [] [] more rest games all h = h
  Receives-item start n [] (payload ∷ payloads) more rest games all h = absurd all
  Receives-item start n (bytes ∷ datagrams) [] more rest games all h = absurd all
  Receives-item start zero (bytes ∷ datagrams) (payload ∷ payloads) more rest games all h =
      Receives-cons start bytes payload more rest games.0 all.0 h
  Receives-item start (suc n) (bytes ∷ datagrams) (payload ∷ payloads) more rest games all h =
      Receives-item start n datagrams payloads more rest games.1 all.1 h

  Receives-arriving :
      (start : ℕ) (order : List ℕ) (datagrams payloads : List (List ℕ))
      → All (IsGame mtu) payloads
      → AllCarry b start datagrams payloads
      → Receives start (arriving order datagrams) (arriving order payloads)
  unfolding arriving
  Receives-arriving start [] datagrams payloads games all = Receives-nil start
  Receives-arriving start (n ∷ order) datagrams payloads games all =
      Receives-item start n datagrams payloads _ _ games all
        (Receives-arriving start order datagrams payloads games all)

module _ (b : ByteOrder) (u : BinaryUtils) (r : Resolver)
    (fparse : Result (List ℕ) → Result (List ℕ)) where
  -- Payloads of a game, each shorter than 8 KiB and at least 70 bytes shorter than the MTU, which is below
  -- 2 ^ 16, are sent at once, one after another, on a connection with room for them in its counters. That
  -- sends one datagram for each. The network brings those datagrams to another connection, in any order,
  -- any of them never or several times, while the window of its ordered queue starts at the sender's order
  -- index or before. Then the other user gets the payloads of the datagrams that arrive, in the order of
  -- arrival, each as often as it arrives, and nothing is sent back before the next tick. (A payload of a
  -- game starts with a byte above 0x1c that is not that of an ACK or a NACK.)
  pub recv_all-send_all :
      (now later : ℕ) (c d : Connection) (payloads : List (List ℕ)) (order : List ℕ)
      → IsByteOrder b
      → IsBinaryUtils u
      → ((bs : List ℕ) → fparse (ok bs) ≡ ok bs)
      → HasRoom (length payloads) c.rakhandler
      → c.mtu < 2 ^ 16
      → All (IsGame c.mtu) payloads
      → d.rakhandler.ordered_channels.scope.0 ≤ index_at 0 c.rakhandler.order_index
      → (datagrams : List (List ℕ)) × (c' : Connection) × (d' : Connection) × (send_all b fparse now
            c payloads
          ≡ ok c')
        × (c'.sent ≡ c.sent ++ to c.address datagrams)
        × (length datagrams ≡ length payloads)
        × (recv_all b fparse later u r d (arriving order datagrams) ≡ ok d')
        × (d'.event_dispatch ≡ d.event_dispatch ++ events d (arriving order payloads))
        × (d'.sent ≡ d.sent)
  unfolding Receives
  recv_all-send_all now later c d payloads order order_laws laws unwraps room small games within =
      let (datagrams, c', sends, out, carry) =
        send_all_carries b fparse now order_laws unwraps payloads c room small games in
      let start = d.rakhandler.ordered_channels.scope.0 in
      let (d', receives, h) =
        Receives-arriving b u r fparse later laws c.mtu start order datagrams payloads games
          (AllCarry-later b start _ datagrams payloads within carry) d refl in
      (
        datagrams,
        c',
        d',
        sends,
        out,
        AllCarry-length b _ datagrams payloads carry,
        receives,
        h.all_dispatched,
        h.all_sent,
      )
