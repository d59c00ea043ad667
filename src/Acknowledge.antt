-- ===== src/Acknowledge.antt =====
-- src/internal/handler.rs, `RakConnHandler::handle`: what is done with a NACK and with an ACK. Nothing is
-- changed before the packet is read, so an error leaves the connection as it was.
pub mod Core
pub mod Mentioned
pub mod Resent
pub mod Forgotten
use netrex_rak_net.Prelude
use netrex_rak_net.Prelude.{
  ℕ, zero, suc, ◌+◌, ◌-◌, true, List, [], ◌∷◌, Option, none, some, if◌then◌else◌, Result, ok,
}
use netrex_rak_net.Prelude.Table.{remove}
use netrex_rak_net.Wire.{ByteOrder}
use netrex_rak_net.Cache.{flush_key, has}
use netrex_rak_net.Ack
use netrex_rak_net.Ack.{Record, single, range, fix}
use netrex_rak_net.Connection.{Connection, send}

-- `for packet in packets.1`.
resend_all : Connection → List (List ℕ) → Connection
resend_all c [] = c
resend_all c (packet ∷ packets) = resend_all (send c packet true) packets

-- What is done for one sequence number: its datagrams are taken out of the store and sent again.
unfoldable pub resend : Connection → ℕ → Connection
unfolding resend_all
resend c sequence =
    let m = c.rakhandler in
    let (store, packets) = flush_key m.ack sequence in
    let taken = record c { rakhandler = record m { ack = store } } in
    if has m.ack sequence
    then elim packets [
      | none ↦ taken
      | some (time, buffers) ↦
          let sent = resend_all taken buffers in
          record sent {
            rakhandler = record (sent.rakhandler) {
              ack_counts = remove sequence sent.rakhandler.ack_counts;
            };
          }
    ]
    else c

-- `for i in rec.start..rec.end`, with the number of rounds.
resend_range : ℕ → ℕ → Connection → Connection
resend_range zero i c = c
resend_range (suc rounds) i c = resend_range rounds (i + 1) (resend c i)

resend_record : Connection → Record → Connection
resend_record c (single r) = resend c r.sequence
resend_record c (range r) =
    let fixed = fix r in resend_range (fixed.end - fixed.start) fixed.start c

resend_records : Connection → List Record → Connection
resend_records c [] = c
resend_records c (r ∷ rs) = resend_records (resend_record c r) rs

-- `connection.rakhandler.nack.remove(&i)`.
unfoldable pub forget : Connection → ℕ → Connection
forget c sequence =
    let m = c.rakhandler in record c { rakhandler = record m { nack = remove sequence m.nack } }

forget_range : ℕ → ℕ → Connection → Connection
forget_range zero i c = c
forget_range (suc rounds) i c = forget_range rounds (i + 1) (forget c i)

forget_record : Connection → Record → Connection
forget_record c (single r) = forget c r.sequence
forget_record c (range r) =
    let fixed = fix r in forget_range (fixed.end - fixed.start) fixed.start c

forget_records : Connection → List Record → Connection
forget_records c [] = c
forget_records c (r ∷ rs) = forget_records (forget_record c r) rs

module _ (b : ByteOrder) where
  -- The arm `0xa0`.
  unfoldable pub handle_nack : Connection → List ℕ → Result Connection
  unfolding resend_record resend_range resend_records
  handle_nack c payload =
      Prelude.◌>>=◌ (Ack.compose b payload 0) λ read. ok (resend_records c read.0.records)

  -- The arm `0xc0`.
  unfoldable pub handle_ack : Connection → List ℕ → Result Connection
  unfolding forget_record forget_range forget_records
  handle_ack c payload =
      Prelude.◌>>=◌ (Ack.compose b payload 0) λ read. ok (forget_records c read.0.records)
