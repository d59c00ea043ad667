-- ===== src/Acknowledge/Forgotten.antt =====
-- What an ACK changes.
use netrex_rak_net.Prelude.{
  ℕ, zero, suc, ◌+◌, ◌-◌, ◌≡◌, refl, sym, ap, ◌∙◌, false, List, [], ◌∷◌, ◌++◌, arith, if◌then◌else◌,
  ok,
}
use netrex_rak_net.Prelude.Table.{contains_key, Distinct, contains_key-get}
use netrex_rak_net.Wire.{ByteOrder, IsByteOrder}
use netrex_rak_net.Ack
use netrex_rak_net.Ack.{Ack, Record, single, range, fix}
use netrex_rak_net.Ack.Codec.{IsAck, compose_ack-parse}
use netrex_rak_net.Ack.Nack.{count_up}
use netrex_rak_net.OrderedQueue.Missing.{elem}
use netrex_rak_net.Connection.{Connection}
use netrex_rak_net.Acknowledge.{forget, forget_range, forget_record, forget_records, handle_ack}
use netrex_rak_net.Acknowledge.Mentioned.{mentioned, without, without-append, get-without}

-- The connection without the numbers in its set `nack`.
abbrev pub cleared : List ℕ → Connection → Connection
cleared ns c = record c {
  rakhandler = record (c.rakhandler) { nack = without ns c.rakhandler.nack };
}

cleared-append :
    (ns ms : List ℕ) (c : Connection) → cleared ms (cleared ns c) ≡ cleared (ns ++ ms) c
cleared-append ns ms c =
    ap (λ t. record c { rakhandler = record (c.rakhandler) { nack = t } })
      (sym (without-append ns ms c.rakhandler.nack))

forget_range_lem : (n i : ℕ) (c : Connection) → forget_range n i c ≡ cleared (count_up i n) c
unfolding forget_range forget
forget_range_lem zero i c = refl
forget_range_lem (suc n) i c = forget_range_lem n (i + 1) (forget c i)

forget_records_lem :
    (rs : List Record) (c : Connection) → forget_records c rs ≡ cleared (mentioned rs) c
unfolding forget_records forget_record forget
forget_records_lem [] c = refl
forget_records_lem (single r ∷ rs) c = forget_records_lem rs (forget c r.sequence)
forget_records_lem (range r ∷ rs) c =
    let lower = (fix r).start in
    let rounds = (fix r).end - lower in
    ap (λ d. forget_records d rs) (forget_range_lem rounds lower c)
    ∙ (forget_records_lem rs (cleared (count_up lower rounds) c)
        ∙ cleared-append (count_up lower rounds) (mentioned rs) c)

module _ (b : ByteOrder) where
  -- An ACK that is written as `parse` does, with anything behind it, is handled without an error.
  -- The numbers that its records mention are then not in the set `nack`, and any other number is in it
  -- if it was. All else is as before: nothing is sent, and the datagrams that the ACK acknowledges stay
  -- in the store `ack`.
  pub handle_ack_lem :
      (c : Connection) (a : Ack) (rest : List ℕ)
      → IsByteOrder b
      → IsAck a
      → Distinct c.rakhandler.nack
      → let numbers = mentioned a.records in
        (bytes : List ℕ) × (c' : Connection) × (Ack.parse b a ≡ ok bytes)
        × (handle_ack b c (bytes ++ rest) ≡ ok c')
        × (c' ≡ record c { rakhandler = record (c.rakhandler) { nack = c'.rakhandler.nack } })
        × ((j : ℕ)
            → contains_key j c'.rakhandler.nack
              ≡ (if elem j numbers then false else contains_key j c.rakhandler.nack))
  unfolding handle_ack
  handle_ack_lem c a rest laws is distinct =
      let (bytes, e, read) = compose_ack-parse b laws a rest 0 is in
      let numbers = mentioned a.records in
      let nack = c.rakhandler.nack in
      (
        bytes,
        cleared numbers c,
        e,
        rw read (ap ok (forget_records_lem a.records c)),
        refl,
        λ j. ground (
          arith,
          get-without numbers j nack distinct,
          contains_key-get j (without numbers nack),
          contains_key-get j nack,
        ),
      )
