-- ===== src/Ack/Codec.antt =====
-- The bytes of an ACK or NACK packet are read back.
use netrex_rak_net.Prelude.{
  ℕ, ◌+◌, ◌^◌, ◌<◌, ◌≡◌, refl, sym, subst, ap, List, [], ◌∷◌, ◌++◌, length, Result, ok, panic, All,
  arith,
}
use netrex_rak_net.Wire.{ByteOrder, IsByteOrder, Reader}
use netrex_rak_net.Wire.Reads.{
  Reads, Reads->>=, Reads->>=_done, Reads-done, Reads-unwrap_read, Reads-read_u8, Reads-u16_be,
  Reads-u24_le,
}
use netrex_rak_net.Wire.Cuts.{
  Cuts, Cuts->>=, Cuts->>=_done, Cuts-done, Cuts-read_u8, Cuts-u16_be, Cuts-u24_le,
}
use netrex_rak_net.Ack.{
  Ack, Record, single, range, parse, parse_record, parse_records, compose, compose_single,
  compose_range, compose_record, compose_records, compose_ack,
}

-- The sequence numbers have 24 bits.
abbrev pub RecordFits : Record → Type 0
RecordFits (single r) = r.sequence < 2 ^ 24
RecordFits (range r) = (r.start < 2 ^ 24) × (r.end < 2 ^ 24)

pub record IsAck (a : Ack) : Type 0 where
  pub counted : a.count ≡ length a.records
  pub count_fits : a.count < 2 ^ 16
  pub records_fit : All RecordFits a.records

module _ (b : ByteOrder) (laws : IsByteOrder b) where
  -- What is written for a record is read for the record, and cannot be read if it is cut short.
  Written : {A : Type 0} → Result (List ℕ) → Reader A → A → Type 0
  Written written m a = (bs : List ℕ) × (written ≡ ok bs) × Reads m bs a × Cuts m bs

  record-Written : (r : Record) → RecordFits r → Written (parse_record b r) (compose_record b) r
  unfolding Written parse_record compose_record compose_single compose_range
  record-Written (single r) fits =
      let (bs, e, l, reads) = Reads-u24_le b laws r.sequence fits in
      let make = λ (seq : ℕ). single (record { sequence = seq }) in
      (
        1 ∷ bs,
        rw e,
        Reads->>= _ (Reads-unwrap_read (Reads-read_u8 1))
            (Reads->>=_done make (Reads-unwrap_read reads)),
        Cuts->>= _ (Reads-unwrap_read (Reads-read_u8 1)) (Cuts-read_u8 1)
            (Cuts->>=_done make (Cuts-u24_le b bs l)),
      )
  record-Written (range r) fits =
      let (bs, e, l, reads) = Reads-u24_le b laws r.start fits.0 in
      let (cs, e', l', reads') = Reads-u24_le b laws r.end fits.1 in
      let make = λ (end : ℕ). range (record { start = r.start; end = end }) in
      (
        0 ∷ (bs ++ cs),
        rw (e, e'),
        Reads->>= _ (Reads-unwrap_read (Reads-read_u8 0)) (
            Reads->>= _ (Reads-unwrap_read reads) (Reads->>=_done make (Reads-unwrap_read reads'))),
        Cuts->>= _ (Reads-unwrap_read (Reads-read_u8 0)) (Cuts-read_u8 0) (
            Cuts->>= _ (Reads-unwrap_read reads) (Cuts-u24_le b bs l)
              (Cuts->>=_done make (Cuts-u24_le b cs l'))),
      )

  records-Written :
      (rs : List Record)
      → All RecordFits rs
      → Written (parse_records b rs) (compose_records b (length rs)) rs
  unfolding Written parse_records compose_records
  records-Written [] fits = ([], refl, Reads-done [], Cuts-done [])
  records-Written (r ∷ rs) fits =
      let (bs, e, reads, cuts) = record-Written r fits.0 in
      let (cs, e', reads', cuts') = records-Written rs fits.1 in
      let make = λ (rest : List Record). r ∷ rest in
      (
        bs ++ cs,
        rw (e, e'),
        Reads->>= _ reads (Reads->>=_done make reads'),
        Cuts->>= _ reads cuts (Cuts->>=_done make cuts'),
      )

  ack-Written : (a : Ack) → IsAck a → Written (parse b a) (compose_ack b) a
  unfolding Written parse compose_ack
  ack-Written a is =
      let (bs, e, reads, cuts) =
        subst (λ n. Written (parse_records b a.records) (compose_records b n) a.records)
          (sym is.counted) (records-Written a.records is.records_fit) in
      let (two, _) = laws.u16_be a.count is.count_fits in
      let make : List Record → Ack = λ rs. record { id = a.id; count = a.count; records = rs } in
      (
        a.id ∷ (b.put_u16_be a.count ++ bs),
        rw e,
        Reads->>= _ (Reads-unwrap_read (Reads-read_u8 a.id)) (
            Reads->>= _ (Reads-unwrap_read (Reads-u16_be b laws a.count is.count_fits))
              (Reads->>=_done make reads)),
        Cuts->>= _ (Reads-unwrap_read (Reads-read_u8 a.id)) (Cuts-read_u8 a.id) (
            Cuts->>= _ (Reads-unwrap_read (Reads-u16_be b laws a.count is.count_fits))
              (Cuts-u16_be b (b.put_u16_be a.count) two) (Cuts->>=_done make cuts)),
      )

  -- A packet whose count is the number of its records and fits 16 bits, and whose sequence numbers
  -- have 24 bits, is written without a panic; what is written, with anything behind it, is read as
  -- the same packet, and the position moves by the length of what was written.
  pub compose_ack-parse :
      (a : Ack) (rest : List ℕ) (position : ℕ)
      → IsAck a
      → (bs : List ℕ) × (parse b a ≡ ok bs)
        × (compose b (bs ++ rest) position ≡ ok (a, position + length bs))
  unfolding compose Written
  compose_ack-parse a rest position is =
      let (bs, e, reads, _) = ack-Written a is in
      (
        bs,
        e,
        rw (reads.run (bs ++ rest) rest 0 refl (omega arith))
            (ap (λ (n : ℕ). ok (a, position + n)) (omega arith)),
      )

  -- Of such a packet every proper prefix, the empty one too, makes `compose` panic.
  pub compose_truncated :
      (a : Ack) (front back : List ℕ) (x position : ℕ)
      → IsAck a
      → parse b a ≡ ok (front ++ (x ∷ back))
      → compose b front position ≡ panic
  unfolding compose Written
  compose_truncated a front back x position is written =
      let (bs, e, _, cuts) = ack-Written a is in
      rw (cuts.run front front back x 0 refl (cc) (omega arith))
