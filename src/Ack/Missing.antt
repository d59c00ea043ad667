-- ===== src/Ack/Missing.antt =====
-- The records that `from_missing` makes of an ascending list of missing sequence numbers.
use netrex_rak_net.Prelude.{
  ℕ, ◌+◌, ◌^◌, ◌<◌, ◌≤◌, ◌≡◌, refl, sym, subst, Bool, true, false, List, [], ◌∷◌, ◌++◌, length,
  lt→ltb, leb, ◌==◌, ◌&&◌, if◌then◌else◌, ok, arith, length-append,
}
use netrex_rak_net.Ack.{
  Ack, Record, single, range, Pass, missing_step, missing_loop, from_missing, new,
}

-- Whether some record names the number, with a range taken to hold both its ends.
abbrev pub covers : List Record → ℕ → Bool
covers [] i = false
covers (single r ∷ rs) i = if r.sequence == i then true else covers rs i
covers (range r ∷ rs) i = if leb r.start i && leb i r.end then true else covers rs i

-- The numbers rise strictly from above `low` and are below the greatest `u32`; `last` is the greatest.
abbrev pub RisesTo : ℕ → List ℕ → ℕ → Type 0
RisesTo low [] last = low ≡ last
RisesTo low (m ∷ ms) last = (low < m) × (m + 1 < 2 ^ 32) × RisesTo m ms last

covers_append :
    (rs ss : List Record) (i : ℕ)
    → covers (rs ++ ss) i ≡ (if covers rs i then true else covers ss i)
covers_append [] ss i = refl
covers_append (single r ∷ rs) ss i = ground (arith, covers_append rs ss i)
covers_append (range r ∷ rs) ss i = ground (arith, covers_append rs ss i)

RisesTo-le : (low : ℕ) (ms : List ℕ) (last : ℕ) → RisesTo low ms last → low ≤ last
RisesTo-le low [] last h = omega arith
RisesTo-le low (m ∷ ms) last h = omega (arith, RisesTo-le m ms last h.2)

-- No record so far reaches into or past the range that is still open.
record IsOpen (p : Pass) : Type 0 where
  ordered : p.start ≤ p.end
  below : (i : ℕ) → p.start ≤ i → covers p.records i ≡ false

missing_step-IsOpen :
    (p : Pass) (m : ℕ)
    → p.end < m
    → m + 1 < 2 ^ 32
    → IsOpen p
    → IsOpen (missing_step p m) × ((missing_step p m).end ≡ m)
unfolding missing_step
missing_step-IsOpen p m h small o = (
  record {
    ordered = ground (arith, o.ordered);
    below = λ i. ground (
      arith,
      o.ordered,
      o.below i,
      covers_append p.records (range (record { start = p.start; end = p.end }) ∷ []) i,
    );
  },
  ground arith,
)

missing_loop-uncovered :
    (p : Pass) (ms : List ℕ) (last : ℕ)
    → IsOpen p
    → RisesTo p.end ms last
    → covers (missing_loop p ms).records last ≡ false
unfolding missing_loop
missing_loop-uncovered p [] last o rises = o.below last (omega (arith, o.ordered))
missing_loop-uncovered p (m ∷ ms) last o rises =
    let (o', e) = missing_step-IsOpen p m rises.0 rises.1 o in
    missing_loop-uncovered (missing_step p m) ms last o'
      (subst (λ n. RisesTo n ms last) (sym e) rises.2)

-- Each round adds a record at most.
missing_loop-count :
    (p : Pass) (ms : List ℕ) → length (missing_loop p ms).records ≤ length p.records + length ms
unfolding missing_loop missing_step
missing_loop-count p [] = omega arith
missing_loop-count p (m ∷ ms) = ground (
  arith,
  missing_loop-count (missing_step p m) ms,
  length-append p.records (range (record { start = p.start; end = p.end }) ∷ []),
  length-append p.records (single (record { sequence = m }) ∷ []),
)

-- What `from_missing` makes of fewer than 2 ^ 16 numbers.
unfoldable pub made : List ℕ → Ack
unfolding missing_loop
made missing =
    let rs = (missing_loop (record { records = []; start = 0; end = 0 }) missing).records in
    record { id = 0xa0; count = length rs; records = rs }

pub made-count : (missing : List ℕ) → length (made missing).records ≤ length missing
unfolding made
made-count missing =
    omega (arith, missing_loop-count (record { records = []; start = 0; end = 0 }) missing)

pub from_missing-made :
    (missing : List ℕ) → length missing < 2 ^ 16 → from_missing missing ≡ ok (made missing)
unfolding from_missing new made
from_missing-made missing h =
    rw (lt→ltb (length (made missing).records) (2 ^ 16) (omega (arith, made-count missing))) refl

-- Of fewer than 2 ^ 16 missing numbers that rise strictly from above 0, `from_missing` makes a packet
-- that does not name the greatest: no record holds it, even where a range is read as holding both
-- its ends.
pub from_missing_loses_last :
    (missing : List ℕ) (last : ℕ)
    → RisesTo 0 missing last
    → length missing < 2 ^ 16
    → (a : Ack) × (from_missing missing ≡ ok a) × (covers a.records last ≡ false)
unfolding made
from_missing_loses_last missing last rises short =
    let p : Pass = record { records = []; start = 0; end = 0 } in
    let o : IsOpen p = record { ordered = omega arith; below = λ i h. refl } in
    (made missing, from_missing-made missing short, missing_loop-uncovered p missing last o rises)
