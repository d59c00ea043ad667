-- ===== src/Examples/Ticks.antt =====
-- What a tick sends, at concrete inputs.
use netrex_rak_net.Prelude.{ℕ, ◌≡◌, refl, List, [], ◌∷◌, ◌++◌, arith, ok, Result}
use netrex_rak_net.Prelude.Table.{get}
use netrex_rak_net.Wire.Reference.{reference, reference-IsByteOrder}
use netrex_rak_net.State
use netrex_rak_net.Server
use netrex_rak_net.Queue
use netrex_rak_net.OrderedQueue.{flush_missing}
use netrex_rak_net.Meta
use netrex_rak_net.Meta.{NumberSet}
use netrex_rak_net.Connection
use netrex_rak_net.Connection.{Connection}
use netrex_rak_net.Acknowledge.Resent.{Store, to}
use netrex_rak_net.Tick.{tick}
use netrex_rak_net.Tick.Asks.{Asked}
use netrex_rak_net.Tick.Acknowledges.{Acked}
use netrex_rak_net.Tick.Overdue.{late_buffers, kept}
use netrex_rak_net.Tick.Connected.{tick_lem}

abbrev counts : NumberSet
counts = (12, tt) ∷ (10, tt) ∷ []

abbrev store : Store
store = (4, (1000, (1 ∷ 2 ∷ []) ∷ [])) ∷ (9, (9000, (3 ∷ []) ∷ [])) ∷ []

-- A connected client of which the packets 1 and 3 of the window from 0 to 4 have come.
abbrev busy : Connection
busy = record (Connection.new "10.0.0.2:19132" 0 0 1 "19132" Server.v10) {
  state = State.connected;
  rakhandler = record Meta.new {
    ack_counts = counts;
    ack = record { store = store };
    ordered_channels = record { queue = (3, 7 ∷ []) ∷ (1, 8 ∷ []) ∷ []; scope = (0, 4) };
  };
}

abbrev as_is : Result (List ℕ) → Result (List ℕ)
as_is r = r

two_missing : (flush_missing busy.rakhandler.ordered_channels).1 ≡ 0 ∷ 2 ∷ []
unfolding flush_missing
two_missing = refl

first_overdue : late_buffers 10000 store ≡ (1 ∷ 2 ∷ []) ∷ []
first_overdue = refl

tick_example :
    let channels = busy.rakhandler.ordered_channels in
    (asked acked : List (List ℕ)) × (c' : Connection) × (tick reference as_is 10000 busy ≡ ok c')
    × (c'.sent ≡ busy.sent ++ to busy.address (asked ++ (acked ++ ((1 ∷ 2 ∷ []) ∷ []))))
    × Asked reference (0 ∷ 2 ∷ []) asked
    × Acked reference counts acked
    × (c'.rakhandler.ordered_channels ≡ (flush_missing channels).0)
    × (c'.rakhandler.ack_counts ≡ [])
    × ((j : ℕ) → get j c'.rakhandler.ack.store ≡ kept 10000 (get j store))
unfolding Connection.new Queue.empty Queue.flush flush_missing State.is_connected
tick_example =
    tick_lem reference as_is 10000 busy reference-IsByteOrder (λ bs. refl) refl refl (omega arith)
      (omega arith) (omega arith) (omega arith) (omega arith, (omega arith, tt)) (refl, (refl, tt))
      (omega arith, (omega arith, tt))
