-- ===== src/Examples/Queues.antt =====
-- The queues and the store at concrete inputs.
use netrex_rak_net.Prelude.{
  ℕ, ◌+◌, ◌≡◌, ◌<◌, ◌≤◌, ◌⊎◌, refl, true, false, not, ◌&&◌, ◌==◌, ltb, leb, if◌then◌else◌, List, [],
  ◌∷◌, none, some, map, arith,
}
use netrex_rak_net.Prelude.Table.{get, contains_key}
use netrex_rak_net.Queue.{
  Queue, flush as flush_queue, empty as empty_queue, SendPriority, immediate, normal, low,
}
use netrex_rak_net.Queue.Batch.{push_all, flush-push_all}
use netrex_rak_net.OrderedQueue
use netrex_rak_net.OrderedQueue.{OrderedQueue}
use netrex_rak_net.OrderedQueue.Insert.{insert_lem}
use netrex_rak_net.OrderedQueue.Flush.{Rising, flush_lem}
use netrex_rak_net.OrderedQueue.Missing.{Ascending, elem, flush_missing_lem}
use netrex_rak_net.OrderedQueue.Window.{
  Operation, inserts, flushes, flushes_missing, run, IsWindow, run-empty-IsWindow,
}

abbrev pushes : List (ℕ × SendPriority)
pushes = (5, low) ∷ (6, normal) ∷ (7, immediate) ∷ (8, normal) ∷ []

abbrev open_queue : Queue ℕ
open_queue = record { normal = 1 ∷ []; low = 2 ∷ []; frozen = false }

flush-push_all_example :
    flush_queue (push_all open_queue pushes) ≡ (empty_queue, 1 ∷ 6 ∷ 8 ∷ 2 ∷ 5 ∷ [])
flush-push_all_example = flush-push_all open_queue pushes refl

-- The window from 2 to 7, with packets under 3, 5 and 6.
abbrev window : OrderedQueue ℕ
window = record { queue = (5, 50) ∷ (3, 30) ∷ (6, 60) ∷ []; scope = (2, 7) }

insert_example :
    let (q', accepted) = OrderedQueue.insert window 90 9 in
    ((9 < 2) × (accepted ≡ false) × (q' ≡ window))
    ⊎ ((2 ≤ 9)
        × (accepted ≡ true)
        × ((j : ℕ) → get j q'.queue ≡ (if 9 == j then some 90 else get j window.queue))
        × (q'.scope.0 ≡ 2)
        × (7 ≤ q'.scope.1)
        × (9 ≤ q'.scope.1))
insert_example = insert_lem window 90 9 (omega arith)

flush_example :
    (entries : List (ℕ × ℕ)) × (OrderedQueue.flush window
      ≡ (record window { queue = [] }, map (λ e. e.1) entries))
    × Rising entries
    × ((j : ℕ) → get j entries ≡ (if ltb j 2 then none else get j window.queue))
flush_example = flush_lem window (refl, (refl, (refl, tt)))

flush_missing_example :
    Ascending (OrderedQueue.flush_missing window).1
    × ((j : ℕ)
        → elem j (OrderedQueue.flush_missing window).1
          ≡ (leb 2 j && (ltb j 7 && not (contains_key j window.queue))))
flush_missing_example = flush_missing_lem window

abbrev history : List (Operation ℕ)
history = inserts 40 4 ∷ inserts 0 0 ∷ flushes_missing ∷ flushes ∷ inserts 20 2 ∷ []

run-empty-IsWindow_example :
    let q = run OrderedQueue.empty history in
    IsWindow q × (OrderedQueue.get_scope q + q.scope.0 ≡ q.scope.1)
run-empty-IsWindow_example =
    run-empty-IsWindow history (omega arith, (omega arith, (tt, (tt, (omega arith, tt)))))

abbrev additions : List (ℕ × ℕ × ℕ)
additions = (1, 100, 7) ∷ (2, 110, 8) ∷ (1, 120, 9) ∷ []
