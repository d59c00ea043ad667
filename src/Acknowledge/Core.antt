-- ===== src/Acknowledge/Core.antt =====
-- What `handle` does with a NACK or an ACK changes the handler and what is sent only.
use netrex_rak_net.Prelude.{
  ℕ, zero, suc, ◌+◌, ◌-◌, ◌≡◌, refl, ◌∙◌, true, List, [], ◌∷◌, Always-ok, Always-behind,
}
use netrex_rak_net.Wire.{ByteOrder}
use netrex_rak_net.Cache.{flush_key, has}
use netrex_rak_net.Ack
use netrex_rak_net.Ack.{Record, single, range, fix}
use netrex_rak_net.Connection.{Connection, send}
use netrex_rak_net.Connection.Core.{core, Keeps, core-send, core-if, core-option}
use netrex_rak_net.Acknowledge.{
  resend_all, resend, resend_range, resend_record, resend_records, forget, forget_range,
  forget_record, forget_records, handle_nack, handle_ack,
}

core-resend_all : (c : Connection) (packets : List (List ℕ)) → core (resend_all c packets) ≡ core c
unfolding resend_all
core-resend_all c [] = refl
core-resend_all c (packet ∷ packets) =
    core-resend_all (send c packet true) packets ∙ core-send c packet

core-resend : (c : Connection) (i : ℕ) → core (resend c i) ≡ core c
unfolding resend
core-resend c i =
    let (store, packets) = flush_key c.rakhandler.ack i in
    let taken = record c { rakhandler = record (c.rakhandler) { ack = store } } in
    core-if c (has c.rakhandler.ack i) _ c
      (core-option c packets taken _ refl λ e. core-resend_all taken e.1) refl

core-resend_range : (rounds i : ℕ) (c : Connection) → core (resend_range rounds i c) ≡ core c
unfolding resend_range
core-resend_range zero i c = refl
core-resend_range (suc rounds) i c = core-resend_range rounds (i + 1) (resend c i) ∙ core-resend c i

core-resend_records : (c : Connection) (rs : List Record) → core (resend_records c rs) ≡ core c
unfolding resend_records resend_record
core-resend_records c [] = refl
core-resend_records c (single x ∷ rs) =
    core-resend_records (resend c x.sequence) rs ∙ core-resend c x.sequence
core-resend_records c (range x ∷ rs) =
    let fixed = fix x in
    core-resend_records (resend_range (fixed.end - fixed.start) fixed.start c) rs
    ∙ core-resend_range (fixed.end - fixed.start) fixed.start c

core-forget_range : (rounds i : ℕ) (c : Connection) → core (forget_range rounds i c) ≡ core c
unfolding forget_range forget
core-forget_range zero i c = refl
core-forget_range (suc rounds) i c = core-forget_range rounds (i + 1) (forget c i)

core-forget_records : (c : Connection) (rs : List Record) → core (forget_records c rs) ≡ core c
unfolding forget_records forget_record forget
core-forget_records c [] = refl
core-forget_records c (single x ∷ rs) = core-forget_records (forget c x.sequence) rs
core-forget_records c (range x ∷ rs) =
    let fixed = fix x in
    core-forget_records (forget_range (fixed.end - fixed.start) fixed.start c) rs
    ∙ core-forget_range (fixed.end - fixed.start) fixed.start c

module _ (b : ByteOrder) where
  pub handle_nack-Keeps : (c : Connection) (payload : List ℕ) → Keeps c (handle_nack b c payload)
  unfolding handle_nack
  handle_nack-Keeps c payload =
      Always-behind (Ack.compose b payload 0)
        λ read. Always-ok (core-resend_records c read.0.records)

  pub handle_ack-Keeps : (c : Connection) (payload : List ℕ) → Keeps c (handle_ack b c payload)
  unfolding handle_ack
  handle_ack-Keeps c payload =
      Always-behind (Ack.compose b payload 0)
        λ read. Always-ok (core-forget_records c read.0.records)
