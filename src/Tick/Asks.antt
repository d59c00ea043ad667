-- ===== src/Tick/Asks.antt =====
-- The step of a tick that asks for what is missing.
use netrex_rak_net.Prelude.{
  ℕ, ◌+◌, ◌^◌, ◌<◌, ◌≤◌, ◌≡◌, refl, ap, ◌∙◌, List, [], ◌∷◌, ◌++◌, length, arith, All, Result, ok,
  append-nil, subst, sym,
}
use netrex_rak_net.Wire.{ByteOrder, IsByteOrder}
use netrex_rak_net.Ack
use netrex_rak_net.Ack.{Ack, from_missing}
use netrex_rak_net.Ack.Codec.{compose_ack-parse}
use netrex_rak_net.Ack.Nack.{from_missing-IsAck}
use netrex_rak_net.OrderedQueue.{flush_missing}
use netrex_rak_net.OrderedQueue.Missing.{flush_missing-bounds}
use netrex_rak_net.Connection.{Connection, send, send_immediate}
use netrex_rak_net.Acknowledge.Resent.{to}
use netrex_rak_net.Tick.{ask, ask_missing}

All-weaken : (k l : ℕ) (ns : List ℕ) → k ≤ l → All (λ n. n < k) ns → All (λ n. n < l) ns
All-weaken k l [] h small = tt
All-weaken k l (n ∷ ns) h small = (omega (arith, small.0), All-weaken k l ns h small.1)

-- What is sent for missing indexes: nothing for none, else one packet, which reads back as the NACK that
-- `from_missing` makes of them, with one record for each at most.
abbrev pub Asked : ByteOrder → List ℕ → List (List ℕ) → Type 0
Asked b [] packets = packets ≡ []
Asked b (m ∷ ms) packets =
    (a : Ack) × (bytes : List ℕ) × (packets ≡ bytes ∷ [])
    × (Ack.compose b bytes 0 ≡ ok (a, length bytes))
    × (from_missing (m ∷ ms) ≡ ok a)
    × (a.id ≡ 0xa0)
    × (a.count ≤ length (m ∷ ms))

-- The connection after the packets were sent, with the ordered queue as `flush_missing` leaves it.
abbrev pub asking : List (List ℕ) → Connection → Connection
asking packets c = record c {
  sent = c.sent ++ to c.address packets;
  rakhandler = record (c.rakhandler) {
    ordered_channels = (flush_missing c.rakhandler.ordered_channels).0;
  };
}

module _ (b : ByteOrder) (fparse : Result (List ℕ) → Result (List ℕ)) (now : ℕ) where
  -- The step sends one NACK of what is missing in the window of the ordered queue, if anything is.
  pub ask_missing_lem :
      (c : Connection) (missing : List ℕ)
      → IsByteOrder b
      → ((bs : List ℕ) → fparse (ok bs) ≡ ok bs)
      → (flush_missing c.rakhandler.ordered_channels).1 ≡ missing
      → c.rakhandler.ordered_channels.scope.0 ≤ c.rakhandler.ordered_channels.scope.1
      → c.rakhandler.ordered_channels.scope.1 < c.rakhandler.ordered_channels.scope.0 + 2 ^ 16
      → c.rakhandler.ordered_channels.scope.1 ≤ 2 ^ 24
      → (packets : List (List ℕ)) × Asked b missing packets
        × (ask_missing b fparse now c ≡ ok (asking packets c))
  unfolding ask_missing ask send send_immediate
  ask_missing_lem c [] laws unwraps none_missing ordered narrow low =
      let same : asking [] c ≡ record (asking [] c) { sent = c.sent } =
        ap (λ s. record (asking [] c) { sent = s }) (append-nil c.sent) in
      ([], refl, rw none_missing (sym (ap ok same)))
  ask_missing_lem c (m ∷ ms) laws unwraps some_missing ordered narrow low =
      let q = c.rakhandler.ordered_channels in
      let (below, few) = flush_missing-bounds q ordered in
      let small : All (λ n. n < 2 ^ 24) (m ∷ ms) =
        All-weaken q.scope.1 (2 ^ 24) (m ∷ ms) low
          (subst (All (λ n. n < q.scope.1)) some_missing below) in
      let (a, made, is, id, count) =
        from_missing-IsAck (m ∷ ms) small (omega (arith, few, ap length some_missing)) in
      let (bytes, e, read) = compose_ack-parse b laws a [] 0 is in
      (
        bytes ∷ [],
        (
          a,
          bytes,
          refl,
          (rw (append-nil bytes) at read) ∙ ap (λ (n : ℕ). ok (a, n)) (omega arith),
          made,
          id,
          count,
        ),
        rw (some_missing, made, e, unwraps bytes) refl,
      )
