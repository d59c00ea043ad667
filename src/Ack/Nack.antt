-- ===== src/Ack/Nack.antt =====
-- The packet that `from_missing` makes: it can be written, and names what it is given from 0 on.
use netrex_rak_net.Prelude.{
  ℕ, zero, suc, ◌+◌, ◌^◌, ◌<◌, ◌≤◌, ◌≡◌, refl, sym, ap, ◌∙◌, List, [], ◌∷◌, ◌++◌, length, lt→ltb,
  ok, All, arith, append_assoc, All-append, map, append-nil, length-map,
}
use netrex_rak_net.Ack.{
  Ack, Record, single, range, Pass, missing_step, missing_loop, from_missing, new,
}
use netrex_rak_net.Ack.Missing.{made, made-count, from_missing-made}
use netrex_rak_net.Ack.Codec.{IsAck, RecordFits}

record Fits24 (p : Pass) : Type 0 where
  ordered : p.start ≤ p.end
  bounded : p.end ≤ 2 ^ 24
  records_fit : All RecordFits p.records

missing_step-Fits24 : (p : Pass) (m : ℕ) → m < 2 ^ 24 → Fits24 p → Fits24 (missing_step p m)
unfolding missing_step
missing_step-Fits24 p m small f = record {
  ordered = ground (arith, f.ordered, f.bounded);
  bounded = ground (arith, f.bounded);
  records_fit = ground (
    arith,
    f.ordered,
    f.bounded,
    f.records_fit,
    All-append RecordFits p.records (range (record { start = p.start; end = p.end }) ∷ [])
        f.records_fit,
    All-append RecordFits p.records (single (record { sequence = m }) ∷ []) f.records_fit,
  );
}

missing_loop-Fits24 :
    (p : Pass) (ms : List ℕ) → All (λ m. m < 2 ^ 24) ms → Fits24 p → Fits24 (missing_loop p ms)
unfolding missing_loop
missing_loop-Fits24 p [] small f = f
missing_loop-Fits24 p (m ∷ ms) small f =
    missing_loop-Fits24 (missing_step p m) ms small.1 (missing_step-Fits24 p m small.0 f)

-- Whatever fewer than 2 ^ 16 numbers of 24 bits `from_missing` is given, in whatever order: it makes
-- a NACK whose count is the number of its records, at most one for each number, and whose sequence
-- numbers have 24 bits.
pub from_missing-IsAck :
    (missing : List ℕ)
    → All (λ m. m < 2 ^ 24) missing
    → length missing < 2 ^ 16
    → (a : Ack) × (from_missing missing ≡ ok a)
      × IsAck a
      × (a.id ≡ 0xa0)
      × (a.count ≤ length missing)
unfolding made
from_missing-IsAck missing small short =
    let p : Pass = record { records = []; start = 0; end = 0 } in
    let f : Fits24 p = record { ordered = omega arith; bounded = omega arith; records_fit = tt } in
    let g = missing_loop-Fits24 p missing small f in
    (
      made missing,
      from_missing-made missing short,
      record {
        counted = refl;
        count_fits = omega (arith, made-count missing);
        records_fit = g.records_fit;
      },
      refl,
      made-count missing,
    )

-- `n` numbers from `k` on.
abbrev pub count_up : ℕ → ℕ → List ℕ
count_up k zero = []
count_up k (suc n) = k ∷ count_up (k + 1) n

pub length-count_up : (k n : ℕ) → length (count_up k n) ≡ n
length-count_up k zero = refl
length-count_up k (suc n) = ap suc (length-count_up (k + 1) n)

abbrev pub single_of : ℕ → Record
single_of m = single (record { sequence = m })

-- The range that is open is empty, and starts at the next number.
abbrev at : List Record → ℕ → Pass
at rs k = record { records = rs; start = k; end = k }

missing_step-next :
    (rs : List Record) (k : ℕ)
    → k + 1 < 2 ^ 32
    → missing_step (at rs k) k ≡ at (rs ++ (single_of k ∷ [])) (k + 1)
unfolding missing_step
missing_step-next rs k h = ground arith

missing_loop-count_up :
    (rs : List Record) (k n : ℕ)
    → k + n < 2 ^ 32
    → (missing_loop (at rs k) (count_up k n)).records ≡ rs ++ map single_of (count_up k n)
unfolding missing_loop
missing_loop-count_up rs k zero h = sym (append-nil rs)
missing_loop-count_up rs k (suc n) h =
    ap (λ p. (missing_loop p (count_up (k + 1) n)).records) (missing_step-next rs k (omega arith))
    ∙ (missing_loop-count_up (rs ++ (single_of k ∷ [])) (k + 1) n (omega arith)
        ∙ append_assoc rs (single_of k ∷ []) (map single_of (count_up (k + 1) n)))

-- Where the first `n` numbers from 0 on are missing, each is named once, in order, by a record of its
-- own.
pub from_missing-count_up :
    (n : ℕ)
    → n < 2 ^ 16
    → from_missing (count_up 0 n)
      ≡ ok (record { id = 0xa0; count = n; records = map single_of (count_up 0 n) })
unfolding from_missing new
from_missing-count_up n h = rw (
  missing_loop-count_up [] 0 n (omega arith),
  length-map (count_up 0 n) single_of,
  length-count_up 0 n,
  lt→ltb n (2 ^ 16) h,
)
