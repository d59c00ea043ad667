-- ===== src/Tick/Connected.antt =====
-- The whole tick of a connected connection that has nothing in its queue.
use netrex_rak_net.Prelude.{
  String, ℕ, ◌+◌, ◌^◌, ◌<◌, ◌≤◌, ◌≡◌, refl, ap, ◌∙◌, true, List, [], ◌++◌, length, All, Result, ok,
  append_assoc,
}
use netrex_rak_net.Prelude.Table.{get, Distinct}
use netrex_rak_net.Wire.{ByteOrder, IsByteOrder}
use netrex_rak_net.State.{is_connected}
use netrex_rak_net.Queue
use netrex_rak_net.OrderedQueue.{flush_missing}
use netrex_rak_net.Connection.{Connection}
use netrex_rak_net.Acknowledge.Resent.{to, to-append}
use netrex_rak_net.Tick.{queue_loop, tick}
use netrex_rak_net.Tick.Asks.{Asked, asking, ask_missing_lem}
use netrex_rak_net.Tick.Acknowledges.{Acked, acknowledged, numbers, acknowledge_lem}
use netrex_rak_net.Tick.Overdue.{IsPast, late_buffers, kept, resend_overdue_lem}

sent_in_order :
    (s : List (String × List ℕ)) (a : String) (ps qs rs : List (List ℕ))
    → ((s ++ to a ps) ++ to a qs) ++ to a rs ≡ s ++ to a (ps ++ (qs ++ rs))
sent_in_order s a ps qs rs =
    rw (to-append a ps (qs ++ rs), to-append a qs rs)
      (append_assoc (s ++ to a ps) (to a qs) (to a rs)
        ∙ append_assoc s (to a ps) (to a qs ++ to a rs))

module _ (b : ByteOrder) (fparse : Result (List ℕ) → Result (List ℕ)) (now : ℕ) where
  -- A connection is connected or connecting and has nothing in its queue. Its ordered queue has a window
  -- of fewer than 2 ^ 16 indexes of 24 bits, fewer than 2 ^ 16 numbers of 24 bits are to be
  -- acknowledged, and its store has one entry a number, none from the future. Then a tick returns, and
  -- sends, in this order: where indexes are missing in the window, one packet, which reads back as the
  -- NACK that `from_missing` makes of them, with one record for each at most; where something is to be
  -- acknowledged, one packet, which reads back as an ACK with one record for each of the numbers; every
  -- datagram of the store that is six seconds old or more, in the order of the store; and nothing else.
  -- Behind it the ordered queue is as `flush_missing` leaves it, nothing is to be acknowledged, and the
  -- store has just the entries that were not sent again.
  pub tick_lem :
      (c : Connection)
      → IsByteOrder b
      → ((bs : List ℕ) → fparse (ok bs) ≡ ok bs)
      → is_connected c.state ≡ true
      → (Queue.flush c.queue).1 ≡ []
      → c.rakhandler.ordered_channels.scope.0 ≤ c.rakhandler.ordered_channels.scope.1
      → c.rakhandler.ordered_channels.scope.1 < c.rakhandler.ordered_channels.scope.0 + 2 ^ 16
      → c.rakhandler.ordered_channels.scope.1 ≤ 2 ^ 24
      → length c.rakhandler.ack_counts < 2 ^ 16
      → All (λ n. n < 2 ^ 24) (numbers c.rakhandler.ack_counts)
      → Distinct c.rakhandler.ack.store
      → IsPast now c.rakhandler.ack.store
      → (asked acked : List (List ℕ)) × (c' : Connection) × (tick b fparse now c ≡ ok c')
        × (c'.sent
            ≡ c.sent ++ to c.address (asked ++ (acked ++ late_buffers now c.rakhandler.ack.store)))
        × Asked b (flush_missing c.rakhandler.ordered_channels).1 asked
        × Acked b c.rakhandler.ack_counts acked
        × (c'.rakhandler.ordered_channels ≡ (flush_missing c.rakhandler.ordered_channels).0)
        × (c'.rakhandler.ack_counts ≡ [])
        × ((j : ℕ) → get j c'.rakhandler.ack.store ≡ kept now (get j c.rakhandler.ack.store))
  unfolding tick queue_loop
  tick_lem c laws unwraps connected nothing ordered narrow low few small distinct past =
      let c0 : Connection = record c { queue = (Queue.flush c.queue).0 } in
      let m = c.rakhandler in
      let (asked, asks, run1) =
        ask_missing_lem b fparse now c0 _ laws unwraps refl ordered narrow low in
      let c1 = asking asked c0 in
      let (acked, acks, run2) = acknowledge_lem b fparse now c1 _ laws unwraps refl few small in
      let c2 = acknowledged acked c1 in
      let (c', run3, sent, held, same) = resend_overdue_lem b fparse now c2 distinct past in
      (
        asked,
        acked,
        c',
        rw (nothing, connected, run1, run2) run3,
        sent ∙ sent_in_order c.sent c.address asked acked (late_buffers now m.ack.store),
        asks,
        acks,
        ap (λ x. x.rakhandler.ordered_channels) same,
        ap (λ x. x.rakhandler.ack_counts) same,
        held,
      )
