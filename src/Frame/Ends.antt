-- ===== src/Frame/Ends.antt =====
-- The read of a frame always ends, and takes a byte at least.
use netrex_rak_net.Prelude.{ℕ, Bool, true, false, [], ◌/◌, arith}
use netrex_rak_net.Wire.{ByteOrder, Reader}
use netrex_rak_net.Wire.Ends.{
  Ends, Ends->>=, Ends-done, Ends-le, Ends-read_u8, Ends-u16_be, Ends-u24_le, Ends-u32_be,
  Ends-read_slice,
}
use netrex_rak_net.Reliability.{Reliability, is_reliable, is_sequenced, is_sequenced_or_ordered}
use netrex_rak_net.Frame.{
  compose, compose_head, compose_fields, compose_if, compose_order, compose_meta, order_of,
  channel_of,
}

compose_if-Ends :
    {A : Type 0} (test : Bool) {m : Reader A} {k : ℕ} → Ends m k → Ends (compose_if test m) 0
unfolding compose_if
compose_if-Ends false e = Ends-done _
compose_if-Ends true e = Ends-le 0 (omega arith) (Ends->>= _ e (λ a. Ends-done _))

module _ (b : ByteOrder) where
  compose_order-Ends : Ends (compose_order b) 4
  unfolding compose_order
  compose_order-Ends = Ends->>= _ (Ends-u24_le b) (λ i. Ends->>= _ Ends-read_u8 (λ c. Ends-done _))

  compose_meta-Ends : Ends (compose_meta b) 10
  unfolding compose_meta
  compose_meta-Ends =
      Ends->>= _ (Ends-u32_be b) (λ size.
        Ends->>= _ (Ends-u16_be b) (λ id. Ends->>= _ (Ends-u32_be b) (λ index. Ends-done _)))

  compose_fields-Ends :
      (flags : ℕ) (r : Reliability) (fragmented : Bool)
      → Ends (compose_fields b flags r fragmented) 2
  unfolding compose_fields
  compose_fields-Ends flags r fragmented = Ends->>= _ (Ends-u16_be b) λ bits.
      Ends->>= _ (compose_if-Ends (is_reliable r) (Ends-u24_le b)) λ reliable.
        Ends->>= _ (compose_if-Ends (is_sequenced r) (Ends-u24_le b)) λ sequence.
          Ends->>= _ (compose_if-Ends (is_sequenced_or_ordered r) compose_order-Ends) λ order.
            Ends->>= _ (compose_if-Ends fragmented compose_meta-Ends) λ meta. Ends-done (record {
              flags = flags;
              size = bits / 8;
              reliable_index = reliable;
              sequence_index = sequence;
              order_index = order_of order;
              order_channel = channel_of order;
              fragment_meta = meta;
              reliability = r;
              body = [];
            })

  pub compose-Ends : Ends (compose b) 1
  unfolding compose compose_head
  compose-Ends = Ends-le 1 (omega arith) (
      Ends->>= _ {k = 3} {j = 0} (Ends->>= _ Ends-read_u8 (λ flags. compose_fields-Ends flags _ _))
        (λ f. Ends-le 0 (omega arith) (Ends->>= _ (Ends-read_slice f.size) (λ body. Ends-done _))))
