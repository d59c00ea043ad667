-- ===== src/Meta/Counters.antt =====
-- The message, order and sequence counters of the channels.
use netrex_rak_net.Prelude.{
  ℕ, zero, suc, ◌+◌, ◌%◌, ◌^◌, ◌<◌, ◌≤◌, ◌≡◌, refl, ap, List, [], ◌∷◌, arith, ◌∙◌,
}
use netrex_rak_net.Prelude.Table.{get-insert}
use netrex_rak_net.Ack.Nack.{count_up}
use netrex_rak_net.Meta.{
  RakConnHandlerMeta, index_at, advanced, next_order_index, next_reliable_index,
}

-- The counters of channel 0 and the sequence number have 24 bits for `n` payloads more.
pub record HasRoom (n : ℕ) (m : RakConnHandlerMeta) : Type 0 where
  pub message_fits : index_at 0 m.message_index + n < 2 ^ 24
  pub order_fits : index_at 0 m.order_index + n < 2 ^ 24
  pub sequence_fits : m.send_seq + n < 2 ^ 24

pub HasRoom-fewer : (k n : ℕ) (m : RakConnHandlerMeta) → k ≤ n → HasRoom n m → HasRoom k m
HasRoom-fewer k n m h room = record {
  message_fits = omega (arith, room.message_fits);
  order_fits = omega (arith, room.order_fits);
  sequence_fits = omega (arith, room.sequence_fits);
}

index_at-advanced :
    (channel : ℕ) (t : List (ℕ × ℕ))
    → index_at channel t + 1 < 2 ^ 32
    → index_at channel (advanced channel t) ≡ index_at channel t + 1
unfolding advanced
index_at-advanced channel t h =
    ground (arith, get-insert channel channel ((index_at channel t + 1) % 2 ^ 32) t)

pub index_at-next_order_index :
    (m : RakConnHandlerMeta) (channel : ℕ)
    → index_at channel m.order_index + 1 < 2 ^ 32
    → index_at channel (next_order_index m channel).0.order_index
      ≡ index_at channel m.order_index + 1
unfolding next_order_index
index_at-next_order_index m channel h = index_at-advanced channel m.order_index h

pub index_at-next_reliable_index :
    (m : RakConnHandlerMeta) (channel : ℕ)
    → index_at channel m.message_index + 1 < 2 ^ 32
    → index_at channel (next_reliable_index m channel).0.message_index
      ≡ index_at channel m.message_index + 1
unfolding next_reliable_index
index_at-next_reliable_index m channel h = index_at-advanced channel m.message_index h

-- The indexes that `n` calls hand out in a row on a channel.
pub take_order_indexes : RakConnHandlerMeta → ℕ → ℕ → List ℕ
take_order_indexes m channel zero = []
take_order_indexes m channel (suc n) =
    let (m', i) = next_order_index m channel in i ∷ take_order_indexes m' channel n

-- The order indexes of a channel are handed out in a row, each once, from the channel's counter on
-- (which is 0 for a channel not used before), as long as they stay below the greatest `u32`.
pub take_order_indexes_lem :
    (m : RakConnHandlerMeta) (channel n : ℕ)
    → index_at channel m.order_index + n < 2 ^ 32
    → take_order_indexes m channel n ≡ count_up (index_at channel m.order_index) n
unfolding take_order_indexes next_order_index
take_order_indexes_lem m channel zero h = refl
take_order_indexes_lem m channel (suc n) h =
    let next = index_at-advanced channel m.order_index (omega arith) in
    ap (◌∷◌ (index_at channel m.order_index)) (
      take_order_indexes_lem (next_order_index m channel).0 channel n (omega (arith, next))
      ∙ ap (λ k. count_up k n) next)
