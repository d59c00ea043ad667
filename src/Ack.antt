-- ===== src/Ack.antt =====
-- src/internal/ack/ack.rs: the records of an ACK or NACK packet, and the packet's bytes.
pub mod Codec
pub mod Missing
pub mod Nack
use netrex_rak_net.Prelude
use netrex_rak_net.Prelude.{
  ℕ, zero, suc, ◌+◌, ◌%◌, ◌^◌, Bool, true, false, List, [], ◌∷◌, ◌++◌, length, ltb, leb, ◌==◌,
  if◌then◌else◌, Result, ok, panic, unwrap,
}
use netrex_rak_net.Wire.{
  ByteOrder, Reader, ◌>>=◌, ◌>>◌, done, unwrap_read, read_u8, read_u16_be, read_u24_le,
}

pub record SingleRecord : Type 0 where
  pub sequence : ℕ

pub record RangeRecord : Type 0 where
  pub start : ℕ
  pub end : ℕ

pub data Record : Type 0 where
  single : SingleRecord → Record
  range : RangeRecord → Record

-- `RangeRecord::fix`.
unfoldable pub fix : RangeRecord → RangeRecord
fix r = if ltb r.end r.start then record { start = r.end; end = r.start } else r

pub record Ack : Type 0 where
  pub id : ℕ
  pub count : ℕ
  pub records : List Record

unfoldable pub new : ℕ → Bool → Ack
new count nack = record { id = if nack then 0xa0 else 0xc0; count = count; records = [] }

unfoldable pub push_record : Ack → ℕ → Ack
push_record a seq = record a { records = a.records ++ (single (record { sequence = seq }) ∷ []) }

-- The variables of the loop in `from_missing`: the records so far and the range `current`.
pub record Pass : Type 0 where
  pub records : List Record
  pub start : ℕ
  pub end : ℕ

-- One round of the loop.
missing_step : Pass → ℕ → Pass
missing_step p m =
    if (p.end + 1) % 2 ^ 32 == m
    then record p { end = (p.end + 1) % 2 ^ 32 }
    else if ltb p.end m
    then record {
      records = p.records ++ (range (record { start = p.start; end = p.end }) ∷ []);
      start = m;
      end = m;
    }
    else record {
      records = p.records ++ (single (record { sequence = m }) ∷ []);
      start = (m + 1) % 2 ^ 32;
      end = (m + 1) % 2 ^ 32;
    }

missing_loop : Pass → List ℕ → Pass
missing_loop p [] = p
missing_loop p (m ∷ ms) = missing_loop (missing_step p m) ms

-- The count of the records is a `u16`: `try_into().unwrap()` panics past its range.
unfoldable pub from_missing : List ℕ → Result Ack
unfolding missing_step missing_loop new
from_missing missing =
    let records = (missing_loop (record { records = []; start = 0; end = 0 }) missing).records in
    if ltb (length records) (2 ^ 16)
    then ok (record (new (length records) true) { records = records })
    else panic

module _ (b : ByteOrder) where
  parse_record : Record → Result (List ℕ)
  parse_record (single r) = Prelude.◌>>=◌ (unwrap (b.put_u24_le r.sequence)) λ seq. ok (1 ∷ seq)
  parse_record (range r) =
      Prelude.◌>>=◌ (unwrap (b.put_u24_le r.start))
        λ start. Prelude.◌>>=◌ (unwrap (b.put_u24_le r.end)) λ end. ok (0 ∷ (start ++ end))

  parse_records : List Record → Result (List ℕ)
  parse_records [] = ok []
  parse_records (r ∷ rs) =
      Prelude.◌>>=◌ (parse_record r)
        λ bytes. Prelude.◌>>=◌ (parse_records rs) λ rest. ok (bytes ++ rest)

  unfoldable pub parse : Ack → Result (List ℕ)
  unfolding parse_record parse_records
  parse a =
      Prelude.◌>>=◌ (parse_records a.records) λ rest. ok (a.id ∷ (b.put_u16_be a.count ++ rest))

  compose_single : Reader Record
  compose_single = do seq ← unwrap_read (read_u24_le b); done (single (record { sequence = seq }))

  compose_range : Reader Record
  compose_range = do
    start ← unwrap_read (read_u24_le b)
    end ← unwrap_read (read_u24_le b)
    done (range (record { start = start; end = end }))

  compose_record : Reader Record
  unfolding compose_single compose_range
  compose_record = do tag ← unwrap_read read_u8; if tag == 1 then compose_single else compose_range

  -- `for _ in 0..count`.
  compose_records : ℕ → Reader (List Record)
  compose_records zero = done []
  compose_records (suc n) = do r ← compose_record; rs ← compose_records n; done (r ∷ rs)

  compose_ack : Reader Ack
  unfolding compose_record compose_records
  compose_ack = do
    id ← unwrap_read read_u8
    count ← unwrap_read (read_u16_be b)
    records ← compose_records count
    done (record { id = id; count = count; records = records })

  -- The packet is read from the front of the source; the position is moved by the bytes taken.
  unfoldable pub compose : List ℕ → ℕ → Result (Ack × ℕ)
  unfolding compose_ack
  compose source position =
      Prelude.◌>>=◌ (compose_ack source 0) λ (a, taken). ok (a, position + taken)
