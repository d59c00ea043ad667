-- ===== src/Meta.antt =====
-- src/internal/handler.rs, `RakConnHandlerMeta`: the counters and stores of a connection. A `HashSet` is a
-- table of units. The keys of `message_index` are the `u8` channels, widened.
pub mod Counters
pub mod FragmentIds
use netrex_rak_net.Prelude.{ℕ, ◌+◌, ◌%◌, ◌^◌, List, [], ◌∷◌, Option, none, some, length}
use netrex_rak_net.Prelude.Table
use netrex_rak_net.Prelude.Table.{get, insert, remove}
use netrex_rak_net.Cache
use netrex_rak_net.Cache.{CacheStore}
use netrex_rak_net.OrderedQueue
use netrex_rak_net.OrderedQueue.{OrderedQueue}
use netrex_rak_net.Frame.{Frame}

-- `HashSet<u32>` and its like.
abbrev pub NumberSet : Type 0
NumberSet = List (ℕ × Unit {0})

pub record RakConnHandlerMeta : Type 0 where
  pub nack : NumberSet
  pub ack : CacheStore (List ℕ)
  pub ack_counts : NumberSet
  pub ordered_channels : OrderedQueue (List ℕ)
  pub fragmented_frames : List (ℕ × List (ℕ × Frame))
  pub send_seq : ℕ
  pub order_index : List (ℕ × ℕ)
  pub seq_index : List (ℕ × ℕ)
  pub message_index : List (ℕ × ℕ)
  pub fragment_ids : NumberSet

-- `RakConnHandlerMeta::new`.
unfoldable pub new : RakConnHandlerMeta
new = record {
  nack = [];
  ack = Cache.empty;
  ack_counts = [];
  ordered_channels = OrderedQueue.empty;
  fragmented_frames = [];
  send_seq = 0;
  order_index = [];
  seq_index = [];
  message_index = [];
  fragment_ids = [];
}

unfoldable pub next_seq : RakConnHandlerMeta → RakConnHandlerMeta × ℕ
next_seq m = let next = (m.send_seq + 1) % 2 ^ 32 in (record m { send_seq = next }, next)

-- `entry(channel).or_insert(0)`: the number that stands there then.
abbrev pub index_at : ℕ → List (ℕ × ℕ) → ℕ
index_at channel t = elim (get channel t) [ none ↦ 0 | some i ↦ i ]

-- The table after `entry(channel).or_insert(0)`.
touched : ℕ → List (ℕ × ℕ) → List (ℕ × ℕ)
touched channel t = insert channel (index_at channel t) t

-- The table after `*index += 1` on that entry.
advanced : ℕ → List (ℕ × ℕ) → List (ℕ × ℕ)
advanced channel t = insert channel ((index_at channel t + 1) % 2 ^ 32) t

unfoldable pub get_order_index : RakConnHandlerMeta → ℕ → RakConnHandlerMeta × ℕ
unfolding touched
get_order_index m channel =
    (record m { order_index = touched channel m.order_index }, index_at channel m.order_index)

unfoldable pub next_order_index : RakConnHandlerMeta → ℕ → RakConnHandlerMeta × ℕ
unfolding advanced
next_order_index m channel =
    (record m { order_index = advanced channel m.order_index }, index_at channel m.order_index)

unfoldable pub get_reliable_index : RakConnHandlerMeta → ℕ → RakConnHandlerMeta × ℕ
unfolding touched
get_reliable_index m channel =
    (record m { message_index = touched channel m.message_index }, index_at channel m.message_index)

unfoldable pub next_reliable_index : RakConnHandlerMeta → ℕ → RakConnHandlerMeta × ℕ
unfolding advanced
next_reliable_index m channel = (
  record m { message_index = advanced channel m.message_index },
  index_at channel m.message_index,
)

unfoldable pub get_sequence_index : RakConnHandlerMeta → ℕ → RakConnHandlerMeta × ℕ
unfolding touched
get_sequence_index m channel =
    (record m { seq_index = touched channel m.seq_index }, index_at channel m.seq_index)

unfoldable pub next_sequence_index : RakConnHandlerMeta → ℕ → RakConnHandlerMeta × ℕ
unfolding advanced
next_sequence_index m channel =
    (record m { seq_index = advanced channel m.seq_index }, index_at channel m.seq_index)

-- `self.fragment_ids.len() as u16`.
unfoldable pub next_fragment_id : RakConnHandlerMeta → RakConnHandlerMeta × ℕ
next_fragment_id m =
    let next = length m.fragment_ids % 2 ^ 16 in
    (record m { fragment_ids = insert next tt m.fragment_ids }, next)

unfoldable pub free_fragment_id : RakConnHandlerMeta → ℕ → RakConnHandlerMeta
free_fragment_id m id = record m { fragment_ids = remove id m.fragment_ids }
