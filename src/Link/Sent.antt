-- ===== src/Link/Sent.antt =====
-- The sending side: each payload is in a datagram of its own, with one frame.
use netrex_rak_net.Prelude.{
  ℕ, suc, ◌+◌, ◌^◌, ◌<◌, ◌≤◌, ◌≡◌, refl, sym, ◌∙◌, List, [], ◌∷◌, ◌++◌, length, Result, ok, arith,
  append_assoc, append-nil, All,
}
use netrex_rak_net.Wire.{ByteOrder, IsByteOrder}
use netrex_rak_net.Reliability.{reliable_ord}
use netrex_rak_net.FramePacket.Fields.{parse-header}
use netrex_rak_net.Meta.{index_at, next_seq, next_order_index, next_reliable_index}
use netrex_rak_net.Meta.Counters.{HasRoom, index_at-next_order_index, index_at-next_reliable_index}
use netrex_rak_net.Connection.{Connection, send_immediate}
use netrex_rak_net.Send.{send_framed, send_stream}
use netrex_rak_net.Send.Delivered.{CountersFit, after, send_framed_written}
use netrex_rak_net.Acknowledge.Resent.{to}
use netrex_rak_net.Link.{IsGame, send_all}
use netrex_rak_net.Link.Received.{Carries, carried}

after-HasRoom :
    (c : Connection) (now n : ℕ) (bytes : List ℕ)
    → HasRoom (suc n) c.rakhandler
    → HasRoom n (after c now bytes).rakhandler
unfolding send_immediate next_seq next_order_index next_reliable_index
after-HasRoom c now n bytes room = record {
  message_fits = omega (
    arith,
    room.message_fits,
    index_at-next_reliable_index c.rakhandler 0 (omega (arith, room.message_fits)),
  );
  order_fits = omega (
    arith,
    room.order_fits,
    index_at-next_order_index c.rakhandler 0 (omega (arith, room.order_fits)),
  );
  sequence_fits = omega (arith, room.sequence_fits);
}

-- Each datagram carries the payload in its place.
abbrev pub AllCarry : ByteOrder → ℕ → List (List ℕ) → List (List ℕ) → Type 0
AllCarry b start [] [] = Unit
AllCarry b start (bytes ∷ rest) (payload ∷ payloads) =
    Carries b start bytes payload × AllCarry b start rest payloads
AllCarry b start _ _ = ⊥

pub AllCarry-later :
    (b : ByteOrder) (start later : ℕ) (datagrams payloads : List (List ℕ))
    → start ≤ later
    → AllCarry b later datagrams payloads
    → AllCarry b start datagrams payloads
AllCarry-later b start later [] [] h all = tt
AllCarry-later b start later [] (payload ∷ payloads) h all = absurd all
AllCarry-later b start later (bytes ∷ rest) [] h all = absurd all
AllCarry-later b start later (bytes ∷ rest) (payload ∷ payloads) h (carried more q m o e c w, all) =
    (carried more q m o e c (omega arith), AllCarry-later b start later rest payloads h all)

module _ (b : ByteOrder) (fparse : Result (List ℕ) → Result (List ℕ)) (now : ℕ)
    (laws : IsByteOrder b) (unwraps : (bs : List ℕ) → fparse (ok bs) ≡ ok bs) where
  pub send_framed_carries :
      (c : Connection) (payload : List ℕ)
      → HasRoom 1 c.rakhandler
      → length payload + 70 ≤ c.mtu
      → c.mtu < 2 ^ 16
      → length payload < 8192
      → (bytes : List ℕ) × (send_framed b fparse now c payload reliable_ord
          ≡ ok (after c now bytes))
        × Carries b (index_at 0 c.rakhandler.order_index) bytes payload
  send_framed_carries c payload fit room small body_fits =
      let counters : CountersFit c.rakhandler = record {
        message_fits = omega (arith, fit.message_fits);
        order_fits = omega (arith, fit.order_fits);
        sequence_fits = fit.sequence_fits;
      } in
      let (bytes, e, sends, composed) =
        send_framed_written b fparse now c payload laws unwraps counters room small body_fits in
      let (rest, header) = parse-header b _ bytes e in
      (bytes, sends, carried rest _ _ _ header composed (omega arith))

  -- The payloads of a game, sent at once one after another, are each in a datagram of its own.
  pub send_all_carries :
      (payloads : List (List ℕ)) (c : Connection)
      → HasRoom (length payloads) c.rakhandler
      → c.mtu < 2 ^ 16
      → All (IsGame c.mtu) payloads
      → (datagrams : List (List ℕ)) × (c' : Connection) × (send_all b fparse now c payloads ≡ ok c')
        × (c'.sent ≡ c.sent ++ to c.address datagrams)
        × AllCarry b (index_at 0 c.rakhandler.order_index) datagrams payloads
  unfolding send_all send_stream send_immediate next_seq next_order_index next_reliable_index
  send_all_carries [] c room small games = ([], c, refl, sym (append-nil c.sent), tt)
  send_all_carries ([] ∷ payloads) c room small games = absurd games.0
  send_all_carries ((id ∷ rest) ∷ payloads) c room small ((above, byte, other, fits, body), games) =
      let (bytes, sends, carries) =
        send_framed_carries c (id ∷ rest)
          (record {
            message_fits = omega (arith, room.message_fits);
            order_fits = omega (arith, room.order_fits);
            sequence_fits = omega (arith, room.sequence_fits);
          })
          fits small body in
      let c' = after c now bytes in
      let (datagrams, last, all, out, carry) =
        send_all_carries payloads c' (after-HasRoom c now (length payloads) bytes room) small
          games in
      let next = index_at-next_order_index c.rakhandler 0 (omega (arith, room.order_fits)) in
      (
        bytes ∷ datagrams,
        last,
        rw sends all,
        out ∙ append_assoc c.sent ((c.address, bytes) ∷ []) (to c.address datagrams),
        (carries, AllCarry-later b _ _ datagrams payloads (omega (arith, next)) carry),
      )
