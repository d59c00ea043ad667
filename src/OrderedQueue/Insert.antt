-- ===== src/OrderedQueue/Insert.antt =====
-- `OrderedQueue::insert`.
use native.Mathlib.Decide.{dec_lt}
use netrex_rak_net.Prelude.{
  ℕ, ◌+◌, ◌^◌, ◌<◌, ◌≤◌, ◌≡◌, ◌⊎◌, inl, inr, true, false, some, arith, ◌==◌, if◌then◌else◌,
}
use netrex_rak_net.Prelude.Table
use netrex_rak_net.Prelude.Table.{get}
use netrex_rak_net.OrderedQueue.{OrderedQueue, insert}

module _ {ℓ} {T : Type ℓ} where
  -- `insert` of an index below the greatest `u32` refuses an index below the window's start, and
  -- changes nothing then. It accepts any other index, one that is already held too: the packet is
  -- held under it, every other entry is kept, the window keeps its start and its end falls neither
  -- below its old end nor below the index.
  pub insert_lem :
      (q : OrderedQueue T) (packet : T) (id : ℕ)
      → id + 1 < 2 ^ 32
      → let (q', accepted) = insert q packet id in
        ((id < q.scope.0) × (accepted ≡ false) × (q' ≡ q))
        ⊎ ((q.scope.0 ≤ id)
            × (accepted ≡ true)
            × ((j : ℕ) → get j q'.queue ≡ (if id == j then some packet else get j q.queue))
            × (q'.scope.0 ≡ q.scope.0)
            × (q.scope.1 ≤ q'.scope.1)
            × (id ≤ q'.scope.1))
  unfolding insert
  insert_lem q packet id small = elim (dec_lt id q.scope.0) [
    | yes old ↦ inl (old, ground arith, ground arith)
    | no new ↦ inr (
      omega arith,
      ground arith,
      λ j. ground (arith, Table.get-insert id j packet q.queue),
      ground arith,
      ground arith,
      ground arith,
    )
  ]
