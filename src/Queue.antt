-- ===== src/Queue.antt =====
-- src/internal/queue.rs, `Queue` and `SendPriority`: packets that wait to be sent, in two priorities.
pub mod Batch
use netrex_rak_net.Prelude.{ℕ, ◌+◌, Bool, true, false, List, [], ◌∷◌, ◌++◌, length, if◌then◌else◌}

pub data SendPriority : Type 0 where
  immediate normal low : SendPriority

pub record Queue {ℓ} (T : Type ℓ) : Type ℓ where
  pub normal : List T
  pub low : List T
  pub frozen : Bool

module _ {ℓ} {T : Type ℓ} where
  -- `Queue::new`.
  unfoldable pub empty : Queue T
  empty = record { normal = []; low = []; frozen = false }

  -- The branch of `push` behind the test of `frozen`.
  push_open : Queue T → T → SendPriority → Queue T
  push_open q packet normal = record q { normal = q.normal ++ (packet ∷ []) }
  push_open q packet low = record q { low = q.low ++ (packet ∷ []) }
  push_open q packet immediate = q

  unfoldable pub push : Queue T → T → SendPriority → Queue T
  unfolding push_open
  push q packet priority = if q.frozen then q else push_open q packet priority

  unfoldable pub flush_low : Queue T → Queue T × List T
  flush_low q = (record q { low = [] }, q.low)

  unfoldable pub flush_normal : Queue T → Queue T × List T
  flush_normal q = (record q { normal = [] }, q.normal)

  unfoldable pub flush : Queue T → Queue T × List T
  unfolding flush_low flush_normal
  flush q =
      let (q', normals) = flush_normal q in let (q'', lows) = flush_low q' in (q'', normals ++ lows)

  unfoldable pub len : Queue T → ℕ
  len q = length q.normal + length q.low
