-- ===== src/Frame/Longer.antt =====
-- The bytes of a frame are more than those of its body.
use netrex_rak_net.Prelude.{
  ℕ, ◌<◌, List, [], ◌∷◌, some, length, ok, arith, length-append, Always, Always-ok, Always-behind,
  Always->>=,
}
use netrex_rak_net.Wire.{ByteOrder}
use netrex_rak_net.Reliability
use netrex_rak_net.Reliability.{is_reliable, is_sequenced_or_ordered}
use netrex_rak_net.Frame.{Frame, parse_if, parse_head, parse}

not_empty : (x : ℕ) (xs : List ℕ) → Always (λ bs. 0 < length bs) (ok (x ∷ xs))
not_empty x xs = Always-ok (omega arith)

module _ (b : ByteOrder) where
  head_longer : (f : Frame) → Always (λ head. 0 < length head) (parse_head b f)
  unfolding parse_head
  head_longer f =
      let ordered = is_sequenced_or_ordered f.reliability in
      Always-behind (parse_if (is_reliable f.reliability) f.reliable_index b.put_u24_le) λ reliable.
        Always-behind
          (parse_if (Reliability.is_sequenced f.reliability) f.sequence_index b.put_u24_le)
          λ sequence. Always-behind (parse_if ordered f.order_index b.put_u24_le) λ order.
            Always-behind (parse_if ordered f.order_channel (λ c. some (c ∷ [])))
              λ channel. not_empty _ _

  pub parse_longer : (f : Frame) → Always (λ bytes. length f.body < length bytes) (parse b f)
  unfolding parse
  parse_longer f =
      Always->>= (parse_head b f) (head_longer f)
        λ head h. Always-ok (omega (arith, length-append head f.body))
