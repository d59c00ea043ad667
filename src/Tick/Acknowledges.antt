-- ===== src/Tick/Acknowledges.antt =====
-- The step of a tick that acknowledges what came.
use netrex_rak_net.Prelude.{
  ℕ, suc, ◌%◌, ◌^◌, ◌<◌, ◌≡◌, refl, sym, ap, ◌∙◌, List, [], ◌∷◌, ◌++◌, map, length, arith, All,
  Result, ok, append_assoc, append-nil, length-map,
}
use netrex_rak_net.Wire.{ByteOrder, IsByteOrder}
use netrex_rak_net.Ack
use netrex_rak_net.Ack.{Ack, Record, push_record}
use netrex_rak_net.Ack.Codec.{IsAck, RecordFits, compose_ack-parse}
use netrex_rak_net.Ack.Nack.{single_of}
use netrex_rak_net.Meta.{NumberSet}
use netrex_rak_net.Connection.{Connection, send, send_immediate}
use netrex_rak_net.Acknowledge.Resent.{to}
use netrex_rak_net.Tick.{push_ids, acknowledge, acknowledge_with}

-- The numbers of a set, in its order.
abbrev pub numbers : NumberSet → List ℕ
numbers [] = []
numbers ((id, _) ∷ ids) = id ∷ numbers ids

push_ids_lem :
    (a : Ack) (ids : NumberSet)
    → push_ids a ids ≡ record a { records = a.records ++ map single_of (numbers ids) }
unfolding push_ids push_record
push_ids_lem a [] = ap (λ rs. record a { records = rs }) (sym (append-nil a.records))
push_ids_lem a ((id, _) ∷ ids) =
    push_ids_lem (push_record a id) ids
    ∙ ap (λ rs. record a { records = rs }) (append_assoc a.records (single_of id ∷ []) _)

length-numbers : (ids : NumberSet) → length (numbers ids) ≡ length ids
length-numbers [] = refl
length-numbers (_ ∷ ids) = ap suc (length-numbers ids)

All-RecordFits : (ns : List ℕ) → All (λ n. n < 2 ^ 24) ns → All RecordFits (map single_of ns)
All-RecordFits [] small = tt
All-RecordFits (n ∷ ns) small = (small.0, All-RecordFits ns small.1)

-- The ACK of a set of numbers.
abbrev pub ack_of : NumberSet → Ack
ack_of ids = record { id = 0xc0; count = length ids; records = map single_of (numbers ids) }

-- What is sent for a set of numbers: nothing for none, else one packet, which reads back as their ACK.
abbrev pub Acked : ByteOrder → NumberSet → List (List ℕ) → Type 0
Acked b [] packets = packets ≡ []
Acked b (first ∷ more) packets =
    (bytes : List ℕ) × (packets ≡ bytes ∷ [])
    × (Ack.compose b bytes 0 ≡ ok (ack_of (first ∷ more), length bytes))

-- The connection after the packets were sent, with nothing to acknowledge.
abbrev pub acknowledged : List (List ℕ) → Connection → Connection
acknowledged packets c = record c {
  sent = c.sent ++ to c.address packets;
  rakhandler = record (c.rakhandler) { ack_counts = [] };
}

module _ (b : ByteOrder) (fparse : Result (List ℕ) → Result (List ℕ)) (now : ℕ) where
  -- The step sends one ACK of the numbers in `ack_counts`, if there are any, and empties that set.
  pub acknowledge_lem :
      (c : Connection) (ids : NumberSet)
      → IsByteOrder b
      → ((bs : List ℕ) → fparse (ok bs) ≡ ok bs)
      → c.rakhandler.ack_counts ≡ ids
      → length ids < 2 ^ 16
      → All (λ n. n < 2 ^ 24) (numbers ids)
      → (packets : List (List ℕ)) × Acked b ids packets
        × (acknowledge b fparse now c ≡ ok (acknowledged packets c))
  unfolding acknowledge acknowledge_with send send_immediate Ack.new push_ids
  acknowledge_lem c [] laws unwraps ids few small =
      let same : acknowledged [] c ≡ record (acknowledged [] c) { sent = c.sent } =
        ap (λ s. record (acknowledged [] c) { sent = s }) (append-nil c.sent) in
      ([], refl, rw ids (sym (ap ok same)))
  acknowledge_lem c (first ∷ more) laws unwraps ids few small =
      let all : NumberSet = first ∷ more in
      let a = ack_of all in
      let is : IsAck a = record {
        counted = ap suc (sym (length-map (numbers more) single_of ∙ length-numbers more));
        count_fits = few;
        records_fit = All-RecordFits (numbers all) small;
      } in
      let (bytes, e, read) = compose_ack-parse b laws a [] 0 is in
      let count : length all % 2 ^ 16 ≡ length all = omega arith in
      (
        bytes ∷ [],
        (bytes, refl, (rw (append-nil bytes) at read) ∙ ap (λ (n : ℕ). ok (a, n)) (omega arith)),
        rw (ids, push_ids_lem, count, e, unwraps bytes) refl,
      )
