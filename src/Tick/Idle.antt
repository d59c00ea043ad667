-- ===== src/Tick/Idle.antt =====
-- A tick of a connection that has nothing to ask for, to acknowledge and to send again.
use netrex_rak_net.Prelude.{
  arith, ℕ, ◌≡◌, refl, false, List, [], ◌∷◌, Option, none, some, ltb, Result, ok, ◌>>=◌, All,
}
use netrex_rak_net.Prelude.Table.{get, All-get, All-insert}
use netrex_rak_net.Wire.{ByteOrder}
use netrex_rak_net.Cache.{CacheStore, add}
use netrex_rak_net.OrderedQueue.{flush_missing}
use netrex_rak_net.Ack
use netrex_rak_net.Meta.{RakConnHandlerMeta}
use netrex_rak_net.Connection.{Connection}
use netrex_rak_net.Tick.{
  is_overdue, overdue, clear_ids, ask, ask_missing, acknowledge_with, push_ids, acknowledge,
  resend_overdue,
}

-- A time that is not to come, and not overdue.
abbrev pub IsRecent : ℕ → ℕ → Type 0
IsRecent now time = (ltb now time ≡ false) × (is_overdue now time ≡ false)

pub IsRecent-now : (now : ℕ) → IsRecent now now
IsRecent-now now = (ground arith, ground arith)

-- None of the datagrams that wait for their ACK is overdue.
abbrev pub AreRecent : ℕ → List (ℕ × (ℕ × List (List ℕ))) → Type 0
AreRecent now t = All (λ e. IsRecent now e.1.0) t

-- The time of an entry: the old one, if there is one.
IsRecent-entry :
    (now time : ℕ) (o : Option (ℕ × List (List ℕ)))
    → ((v : ℕ × List (List ℕ)) → o ≡ some v → IsRecent now v.0)
    → IsRecent now time
    → IsRecent now (elim o as (λ _. ℕ × List (List ℕ)) [ none ↦ (time, []) | some e ↦ e ]).0
IsRecent-entry now time none held recent = recent
IsRecent-entry now time (some v) held recent = held v refl

pub AreRecent-add :
    (now seq time : ℕ) (s : CacheStore (List ℕ)) (bytes : List ℕ)
    → AreRecent now s.store
    → IsRecent now time
    → AreRecent now (add s seq time bytes).store
unfolding add
AreRecent-add now seq time s bytes recent fresh =
    All-insert (λ (v : ℕ × List (List ℕ)). IsRecent now v.0) seq _ s.store
      (IsRecent-entry now time (get seq s.store)
        (λ v e. All-get (λ (w : ℕ × List (List ℕ)). IsRecent now w.0) seq v s.store recent e) fresh)
      recent

overdue-recent :
    (now : ℕ) (t : List (ℕ × (ℕ × List (List ℕ)))) → AreRecent now t → overdue now t ≡ ok []
unfolding overdue
overdue-recent now [] recent = refl
overdue-recent now (e ∷ t) recent = rw (recent.0.0, overdue-recent now t recent.1, recent.0.1) refl

-- The connection has nothing to ask for, nothing to acknowledge and nothing to send again.
pub record IsIdle (now : ℕ) (m : RakConnHandlerMeta) : Type 0 where
  pub nothing_missing : (flush_missing m.ordered_channels).1 ≡ []
  pub nothing_received : m.ack_counts ≡ []
  pub nothing_overdue : AreRecent now m.ack.store

module _ (b : ByteOrder) (fparse : Result (List ℕ) → Result (List ℕ)) (now : ℕ) where
  -- What such a connection does in a tick behind the queue.
  pub tick-IsIdle :
      (c : Connection)
      → IsIdle now c.rakhandler
      → (ask_missing b fparse now c >>= λ c'.
          acknowledge b fparse now c' >>= λ c''. resend_overdue b fparse now c'')
        ≡ ok c
  unfolding ask_missing ask acknowledge acknowledge_with push_ids resend_overdue clear_ids Ack.new
      flush_missing
  tick-IsIdle c idle =
      rw
        (
          idle.nothing_missing,
          idle.nothing_received,
          overdue-recent now c.rakhandler.ack.store idle.nothing_overdue,
        )
        refl
