-- ===== src/OrderedQueue/Missing.antt =====
-- `OrderedQueue::flush_missing`.
use netrex_rak_net.Prelude.{
  ℕ, zero, suc, ◌+◌, ◌-◌, ◌<◌, ◌≤◌, ◌≡◌, refl, Bool, true, false, not, ◌&&◌, List, [], ◌∷◌, ltb,
  leb, ◌==◌, if◌then◌else◌, arith, length, ◌⊎◌, inl, inr, All,
}
use netrex_rak_net.Prelude.Table.{contains_key}
use netrex_rak_net.OrderedQueue.{OrderedQueue, missing_loop, first_or, flush_missing}

abbrev pub elem : ℕ → List ℕ → Bool
elem i [] = false
elem i (j ∷ js) = if j == i then true else elem i js

abbrev pub Ascending : List ℕ → Type 0
Ascending [] = Unit
Ascending (i ∷ is) = All (λ j. i < j) is × Ascending is

module _ {ℓ} {T : Type ℓ} (queue : List (ℕ × T)) where
  elem-missing_loop :
      (n i j : ℕ)
      → elem j (missing_loop n i queue) ≡ (leb i j && (ltb j (i + n) && not (contains_key j queue)))
  unfolding missing_loop
  elem-missing_loop zero i j = ground arith
  elem-missing_loop (suc n) i j = ground (arith, elem-missing_loop n (i + 1) j)

  missing_loop-above : (n i k : ℕ) → k < i → All (λ j. k < j) (missing_loop n i queue)
  unfolding missing_loop
  missing_loop-above zero i k h = tt
  missing_loop-above (suc n) i k h = ground (arith, missing_loop-above n (i + 1) k)

  missing_loop-Ascending : (n i : ℕ) → Ascending (missing_loop n i queue)
  unfolding missing_loop
  missing_loop-Ascending zero i = tt
  missing_loop-Ascending (suc n) i =
      ground (arith, missing_loop-Ascending n (i + 1), missing_loop-above n (i + 1) i)

  missing_loop-below : (n i k : ℕ) → i + n ≤ k → All (λ j. j < k) (missing_loop n i queue)
  unfolding missing_loop
  missing_loop-below zero i k h = tt
  missing_loop-below (suc n) i k h = ground (arith, missing_loop-below n (i + 1) k)

  length-missing_loop : (n i : ℕ) → length (missing_loop n i queue) ≤ n
  unfolding missing_loop
  length-missing_loop zero i = omega arith
  length-missing_loop (suc n) i = ground (arith, length-missing_loop n (i + 1))

  -- All between the start of the loop and the first missing index is held.
  held_below_first :
      (n i j m : ℕ) (ms : List ℕ)
      → missing_loop n i queue ≡ m ∷ ms
      → i ≤ j
      → j < m
      → contains_key j queue ≡ true
  unfolding missing_loop
  held_below_first zero i j m ms e h k = cc
  held_below_first (suc n) i j m ms e h k = ground (arith, held_below_first n (i + 1) j m ms)

  head_in_range :
      (n i m : ℕ) (ms : List ℕ) → missing_loop n i queue ≡ m ∷ ms → (i ≤ m) × (m < i + n)
  unfolding missing_loop
  head_in_range zero i m ms e = cc
  head_in_range (suc n) i m ms e = ground (arith, head_in_range n (i + 1) m ms)

  head_is_missing :
      (n i m : ℕ) (ms : List ℕ) → missing_loop n i queue ≡ m ∷ ms → contains_key m queue ≡ false
  unfolding missing_loop
  head_is_missing zero i m ms e = cc
  head_is_missing (suc n) i m ms e = ground (arith, head_is_missing n (i + 1) m ms)

module _ {ℓ} {T : Type ℓ} where
  -- `flush_missing` returns, in ascending order, exactly the indexes of the window that the queue
  -- does not hold.
  pub flush_missing_lem :
      (q : OrderedQueue T)
      → Ascending (flush_missing q).1
        × ((j : ℕ)
            → elem j (flush_missing q).1
              ≡ (leb q.scope.0 j && (ltb j q.scope.1 && not (contains_key j q.queue))))
  unfolding flush_missing
  flush_missing_lem q = (
    missing_loop-Ascending q.queue (q.scope.1 - q.scope.0) q.scope.0,
    λ j. ground (arith, elem-missing_loop q.queue (q.scope.1 - q.scope.0) q.scope.0 j),
  )

  moves :
      (q : OrderedQueue T) (missing : List ℕ)
      → missing_loop (q.scope.1 - q.scope.0) q.scope.0 q.queue ≡ missing
      → let start = first_or q.scope.0 missing in
        (q.scope.0 ≤ start)
        × ((j : ℕ) → q.scope.0 ≤ j → j < start → contains_key j q.queue ≡ true)
        × ((start ≡ q.scope.0) ⊎ ((start < q.scope.1) × (contains_key start q.queue ≡ false)))
  moves q [] e = (omega arith, λ j h k. absurd (omega arith), inl refl)
  moves q (m ∷ ms) e =
      let rounds = q.scope.1 - q.scope.0 in
      let (lo, hi) = head_in_range q.queue rounds q.scope.0 m ms e in
      (
        lo,
        λ j. held_below_first q.queue rounds q.scope.0 j m ms e,
        inr (omega (arith, hi), head_is_missing q.queue rounds q.scope.0 m ms e),
      )

  -- `flush_missing` keeps the entries and the window's end, and never moves the window's start back:
  -- the start moves only over indexes that are held, and stops at a missing one or stays.
  pub flush_missing_moves :
      (q : OrderedQueue T)
      → let q' = (flush_missing q).0 in
        (q'.queue ≡ q.queue)
        × (q'.scope.1 ≡ q.scope.1)
        × (q.scope.0 ≤ q'.scope.0)
        × ((j : ℕ) → q.scope.0 ≤ j → j < q'.scope.0 → contains_key j q.queue ≡ true)
        × ((q'.scope.0 ≡ q.scope.0)
            ⊎ ((q'.scope.0 < q.scope.1) × (contains_key q'.scope.0 q.queue ≡ false)))
  unfolding flush_missing
  flush_missing_moves q =
      let (a, b, c) = moves q (missing_loop (q.scope.1 - q.scope.0) q.scope.0 q.queue) refl in
      (refl, refl, a, b, c)

  -- The missing indexes are below the window's end, and no more than the window has.
  pub flush_missing-bounds :
      (q : OrderedQueue T)
      → q.scope.0 ≤ q.scope.1
      → All (λ j. j < q.scope.1) (flush_missing q).1
        × (length (flush_missing q).1 ≤ q.scope.1 - q.scope.0)
  unfolding flush_missing
  flush_missing-bounds q h = (
    missing_loop-below q.queue (q.scope.1 - q.scope.0) q.scope.0 q.scope.1 (omega arith),
    length-missing_loop q.queue (q.scope.1 - q.scope.0) q.scope.0,
  )
