-- ===== src/OrderedQueue/Flush.antt =====
-- `OrderedQueue::flush`.
use netrex_rak_net.Prelude.{
  ℕ, ◌<◌, ◌≡◌, refl, Bool, true, false, ◌&&◌, List, [], ◌∷◌, ltb, ◌==◌, if◌then◌else◌, arith, map,
  some, none, ◌∙◌,
}
use netrex_rak_net.Prelude.Table.{
  get, contains_key, remove, Distinct, get-remove, Distinct-remove, contains_key-get,
}
use netrex_rak_net.OrderedQueue.{OrderedQueue, clear_loop, sort_insert, sort_by_key, flush}

module _ {ℓ} {T : Type ℓ} where
  -- The keys rise strictly.
  abbrev pub Rising : List (ℕ × T) → Type 0
  Rising [] = Unit
  Rising ((k, v) ∷ []) = Unit
  Rising ((k, v) ∷ (j, w) ∷ m) = (k < j) × Rising ((j, w) ∷ m)

  get-sort_insert :
      (k j : ℕ) (v : T) (m : List (ℕ × T))
      → get j (sort_insert (k, v) m) ≡ (if k == j then some v else get j m)
  unfolding sort_insert
  get-sort_insert k j v [] = refl
  get-sort_insert k j v ((i, w) ∷ m) = ground (arith, get-sort_insert k j v m)

  get-sort_by_key : (j : ℕ) (m : List (ℕ × T)) → get j (sort_by_key m) ≡ get j m
  unfolding sort_by_key
  get-sort_by_key j [] = refl
  get-sort_by_key j ((k, v) ∷ m) = rw (get-sort_insert k j v (sort_by_key m), get-sort_by_key j m)

  Rising-sort_insert :
      (k : ℕ) (v : T) (m : List (ℕ × T))
      → contains_key k m ≡ false
      → Rising m
      → Rising (sort_insert (k, v) m)
  unfolding sort_insert
  Rising-sort_insert k v [] h r = tt
  Rising-sort_insert k v ((j, w) ∷ []) h r = ground arith
  Rising-sort_insert k v ((j, w) ∷ (i, u) ∷ m) h r =
      ground (arith, Rising-sort_insert k v ((i, u) ∷ m))

  Rising-sort_by_key : (m : List (ℕ × T)) → Distinct m → Rising (sort_by_key m)
  unfolding sort_by_key
  Rising-sort_by_key [] d = tt
  Rising-sort_by_key ((k, v) ∷ m) d =
      Rising-sort_insert k v (sort_by_key m)
        (rw (contains_key-get k (sort_by_key m), get-sort_by_key k m, ← contains_key-get k m) d.0)
        (Rising-sort_by_key m d.1)

  Distinct-remove_if :
      (b : Bool) (k : ℕ) (m : List (ℕ × T)) → Distinct m → Distinct (if b then remove k m else m)
  Distinct-remove_if true k m d = Distinct-remove k m d
  Distinct-remove_if false k m d = d

  get-remove_if :
      (b : Bool) (k j : ℕ) (m : List (ℕ × T))
      → Distinct m
      → get j (if b then remove k m else m) ≡ (if b && (k == j) then none else get j m)
  get-remove_if true k j m d = get-remove k j m d
  get-remove_if false k j m d = refl

  -- What the loop of `clear_out_of_scope` still has to look at decides what it removes.
  get-clear_loop :
      (start j : ℕ) (rest m : List (ℕ × T))
      → Distinct m
      → get j (clear_loop start rest m)
        ≡ (if ltb j start && contains_key j rest then none else get j m)
  unfolding clear_loop
  get-clear_loop start j [] m d = ground arith
  get-clear_loop start j ((i, w) ∷ rest) m d =
      get-clear_loop start j rest (if ltb i start then remove i m else m)
        (Distinct-remove_if (ltb i start) i m d)
      ∙ rw (get-remove_if (ltb i start) i j m d) (ground arith)

  Distinct-clear_loop :
      (start : ℕ) (rest m : List (ℕ × T)) → Distinct m → Distinct (clear_loop start rest m)
  unfolding clear_loop
  Distinct-clear_loop start [] m d = d
  Distinct-clear_loop start ((i, w) ∷ rest) m d =
      Distinct-clear_loop start rest (if ltb i start then remove i m else m)
        (Distinct-remove_if (ltb i start) i m d)

  -- Of a queue with one entry an index, `flush` returns, in rising order of their indexes, exactly the
  -- packets whose index the start of the window has not passed. It empties the queue, and leaves the
  -- window as it was, its start too.
  pub flush_lem :
      (q : OrderedQueue T)
      → Distinct q.queue
      → (entries : List (ℕ × T)) × (flush q ≡ (record q { queue = [] }, map (λ e. e.1) entries))
        × Rising entries
        × ((j : ℕ) → get j entries ≡ (if ltb j q.scope.0 then none else get j q.queue))
  unfolding flush
  flush_lem q d = (
    sort_by_key (clear_loop q.scope.0 q.queue q.queue),
    refl,
    Rising-sort_by_key _ (Distinct-clear_loop q.scope.0 q.queue q.queue d),
    λ j.
        get-sort_by_key j _
        ∙ (get-clear_loop q.scope.0 j q.queue q.queue d
            ∙ ground (arith, contains_key-get j q.queue)),
  )
