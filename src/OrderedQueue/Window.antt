-- ===== src/OrderedQueue/Window.antt =====
-- The invariant of an `OrderedQueue`, over any history of its operations.
use netrex_rak_net.Prelude.{ℕ, ◌+◌, ◌^◌, ◌<◌, ◌≤◌, ◌≡◌, refl, false, List, [], ◌∷◌, arith, All}
use netrex_rak_net.Prelude.Table.{Distinct, Distinct-insert, contains_key-insert, contains_key}
use netrex_rak_net.OrderedQueue.{OrderedQueue, insert, empty, flush, flush_missing, get_scope}
use netrex_rak_net.OrderedQueue.Missing.{flush_missing_moves}

pub data Operation {ℓ} (T : Type ℓ) : Type ℓ where
  inserts : T → ℕ → Operation T
  flushes flushes_missing : Operation T

module _ {ℓ} {T : Type ℓ} where
  pub step : OrderedQueue T → Operation T → OrderedQueue T
  step q (inserts packet id) = (insert q packet id).0
  step q flushes = (flush q).0
  step q flushes_missing = (flush_missing q).0

  pub run : OrderedQueue T → List (Operation T) → OrderedQueue T
  run q [] = q
  run q (o ∷ os) = run (step q o) os

  -- Inserted indexes are below the greatest `u32`; those of the wire have 24 bits.
  abbrev pub IsSmall : Operation T → Type 0
  IsSmall (inserts packet id) = id + 1 < 2 ^ 32
  IsSmall flushes = Unit
  IsSmall flushes_missing = Unit

  -- One entry an index, none above the window's end, and a window that does not end before it starts.
  pub record IsWindow (q : OrderedQueue T) : Type 0 where
    pub distinct : Distinct q.queue
    pub within : (j : ℕ) → q.scope.1 < j → contains_key j q.queue ≡ false
    pub ordered : q.scope.0 ≤ q.scope.1
    pub fits : q.scope.1 < 2 ^ 32

  insert-IsWindow :
      (q : OrderedQueue T) (packet : T) (id : ℕ)
      → id + 1 < 2 ^ 32
      → IsWindow q
      → IsWindow (insert q packet id).0
  unfolding insert
  insert-IsWindow q packet id small w = record {
    distinct = ground (arith, Distinct-insert id packet q.queue w.distinct, w.distinct);
    within = λ j h. ground (arith, w.within j, contains_key-insert id j packet q.queue);
    ordered = ground (arith, w.ordered);
    fits = ground (arith, w.fits);
  }

  step-IsWindow :
      (q : OrderedQueue T) (o : Operation T) → IsSmall o → IsWindow q → IsWindow (step q o)
  unfolding step
  step-IsWindow q (inserts packet id) small w = insert-IsWindow q packet id small w
  step-IsWindow q flushes small w =
      unfold flush in
      record { distinct = tt; within = λ j h. refl; ordered = w.ordered; fits = w.fits }
  step-IsWindow q flushes_missing small w =
      let (same, end, moved, held, stop) = flush_missing_moves q in
      record {
        distinct = rw same w.distinct;
        within = rw (same, end) w.within;
        ordered = omega (arith, stop, w.ordered);
        fits = omega (arith, w.fits);
      }

  run-IsWindow :
      (q : OrderedQueue T) (os : List (Operation T))
      → All IsSmall os
      → IsWindow q
      → IsWindow (run q os)
  unfolding run
  run-IsWindow q [] small w = w
  run-IsWindow q (o ∷ os) small w = run-IsWindow (step q o) os small.1 (step-IsWindow q o small.0 w)

  empty-IsWindow : IsWindow empty
  unfolding empty
  empty-IsWindow = record {
    distinct = tt;
    within = λ j h. refl;
    ordered = omega arith;
    fits = omega arith;
  }

  -- Any history of inserts, flushes and `flush_missing` leaves a window, and `get_scope` is then its
  -- length, with no underflow. (Indexes are below the greatest `u32`.)
  pub run-empty-IsWindow :
      (os : List (Operation T))
      → All IsSmall os
      → let q = run empty os in IsWindow q × (get_scope q + q.scope.0 ≡ q.scope.1)
  unfolding get_scope
  run-empty-IsWindow os small =
      let w = run-IsWindow empty os small empty-IsWindow in (w, omega (arith, w.ordered, w.fits))
