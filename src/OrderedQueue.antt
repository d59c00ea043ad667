-- ===== src/OrderedQueue.antt =====
-- src/internal/queue.rs, `OrderedQueue`: received packets by order index, and the window of indexes
-- (`scope`, its end exclusive) that are waited for. `HashMap<u32, T>` is a `Table`.
pub mod Insert
pub mod Flush
pub mod Missing
pub mod Sorted
pub mod Window
use netrex_rak_net.Prelude.{
  ℕ, zero, suc, ◌+◌, ◌-◌, ◌%◌, ◌^◌, Bool, true, false, List, [], ◌∷◌, map, ltb, leb, if◌then◌else◌,
}
use netrex_rak_net.Prelude.Table
use netrex_rak_net.Prelude.Table.{contains_key, remove}

pub record OrderedQueue {ℓ} (T : Type ℓ) : Type ℓ where
  pub queue : List (ℕ × T)
  pub scope : ℕ × ℕ

-- `missing.get(0).unwrap_or(&self.scope.0)`.
abbrev first_or : ℕ → List ℕ → ℕ
first_or start [] = start
first_or start (i ∷ _) = i

module _ {ℓ} {T : Type ℓ} where
  -- `OrderedQueue::new`.
  unfoldable pub empty : OrderedQueue T
  empty = record { queue = []; scope = (0, 0) }

  unfoldable pub insert : OrderedQueue T → T → ℕ → OrderedQueue T × Bool
  insert q packet id =
      if ltb id q.scope.0
      then (q, false)
      else let scope' : ℕ × ℕ =
          (q.scope.0, if ltb q.scope.1 id then (id + 1) % 2 ^ 32 else q.scope.1) in
        (record { queue = Table.insert id packet q.queue; scope = scope' }, true)

  -- The loop of `clear_out_of_scope` over a clone of the map.
  clear_loop : ℕ → List (ℕ × T) → List (ℕ × T) → List (ℕ × T)
  clear_loop start [] queue = queue
  clear_loop start ((id, _) ∷ rest) queue =
      clear_loop start rest (if ltb id start then remove id queue else queue)

  unfoldable pub clear_out_of_scope : OrderedQueue T → OrderedQueue T
  unfolding clear_loop
  clear_out_of_scope q = record q { queue = clear_loop q.scope.0 q.queue q.queue }

  -- `sort_by_key(|m| m.0)`: a stable sort.
  sort_insert : ℕ × T → List (ℕ × T) → List (ℕ × T)
  sort_insert (k, v) [] = (k, v) ∷ []
  sort_insert (k, v) ((j, w) ∷ m) =
      if leb k j then (k, v) ∷ (j, w) ∷ m else (j, w) ∷ sort_insert (k, v) m

  unfoldable pub sort_by_key : List (ℕ × T) → List (ℕ × T)
  unfolding sort_insert
  sort_by_key [] = []
  sort_by_key (e ∷ m) = sort_insert e (sort_by_key m)

  unfoldable pub flush : OrderedQueue T → OrderedQueue T × List T
  unfolding clear_out_of_scope sort_by_key
  flush q =
      let q' = clear_out_of_scope q in
      (record q' { queue = [] }, map (λ e. e.1) (sort_by_key q'.queue))

  -- `for i in i..i + n` of `flush_missing`.
  missing_loop : ℕ → ℕ → List (ℕ × T) → List ℕ
  missing_loop zero i queue = []
  missing_loop (suc n) i queue =
      let rest = missing_loop n (i + 1) queue in if contains_key i queue then rest else i ∷ rest

  unfoldable pub flush_missing : OrderedQueue T → OrderedQueue T × List ℕ
  unfolding missing_loop
  flush_missing q =
      let missing = missing_loop (q.scope.1 - q.scope.0) q.scope.0 q.queue in
      (record q { scope = (first_or q.scope.0 missing, q.scope.1) }, missing)

  unfoldable pub get_scope : OrderedQueue T → ℕ
  get_scope q = (q.scope.1 + 2 ^ 32 - q.scope.0) % 2 ^ 32
