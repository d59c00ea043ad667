-- ===== src/Cache.antt =====
-- src/internal/frame/reliability/cache.rs: the store of sent datagrams by sequence number, each with the
-- time of the first. The current time is an argument; keys are the `u32` of the store's one use.
pub mod History
use netrex_rak_net.Prelude.{ℕ, Bool, List, [], ◌∷◌, ◌++◌, Option, none, some}
use netrex_rak_net.Prelude.Table
use netrex_rak_net.Prelude.Table.{get, contains_key, remove}

pub record CacheStore {ℓ} (V : Type ℓ) : Type ℓ where
  pub store : List (ℕ × (ℕ × List V))

module _ {ℓ} {V : Type ℓ} where
  -- `CacheStore::new`.
  unfoldable pub empty : CacheStore V
  empty = record { store = [] }

  -- `entry(sequence).or_insert((SystemTime::now(), Vec::new()))`.
  abbrev entry : CacheStore V → ℕ → ℕ → ℕ × List V
  entry c sequence now = elim (get sequence c.store) [ none ↦ (now, []) | some e ↦ e ]

  unfoldable pub add_bulk : CacheStore V → ℕ → ℕ → List V → CacheStore V
  add_bulk c sequence now buffers =
      let (time, held) = entry c sequence now in
      record { store = Table.insert sequence (time, held ++ buffers) c.store }

  unfoldable pub add : CacheStore V → ℕ → ℕ → V → CacheStore V
  add c sequence now buffer =
      let (time, held) = entry c sequence now in
      record { store = Table.insert sequence (time, held ++ (buffer ∷ [])) c.store }

  -- `drain` of the whole store.
  unfoldable pub flush : CacheStore V → CacheStore V × List (ℕ × (ℕ × List V))
  flush c = (empty, c.store)

  unfoldable pub flush_key : CacheStore V → ℕ → CacheStore V × Option (ℕ × List V)
  flush_key c key = (record { store = remove key c.store }, get key c.store)

  unfoldable pub has : CacheStore V → ℕ → Bool
  has c key = contains_key key c.store
