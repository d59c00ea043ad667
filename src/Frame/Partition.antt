-- ===== src/Frame/Partition.antt =====
-- `FramePacket::partition` splits a payload into numbered fragments of the given size, and loses
-- nothing. With the size 0 its loop never ends.
use mathlib.Core.List.{flatten}
use native.Mathlib.Decide.{dec_lt}
use netrex_rak_net.Prelude.{
  ℕ, zero, suc, ◌+◌, ◌-◌, ◌%◌, ◌^◌, ◌<◌, ◌≤◌, ◌≡◌, refl, sym, ap, ◌∙◌, List, [], ◌∷◌, ◌++◌, length,
  take, drop, map, some, ok, stuck, arith, append_assoc, append-nil, length-append, length-drop,
  length-take, drop-length, drop-drop, take-append-drop,
}
use netrex_rak_net.Frame.{Frame, init, fragment, partition_loop, partition, set_size}

-- The frames of the chunks, numbered from `index` on, each told that there are `size`.
abbrev pub labelled : ℕ → ℕ → ℕ → List (List ℕ) → List Frame
labelled size id index [] = []
labelled size id index (c ∷ cs) =
    record init { body = c; fragment_meta = some (record { size = size; id = id; index = index }) }
    ∷ labelled size id (index + 1) cs

-- Each chunk but the last has `n` bytes, and the last has 1 to `n`.
abbrev pub IsCut : ℕ → List (List ℕ) → Type 0
IsCut n [] = Unit
IsCut n (c ∷ []) = (0 < length c) × (length c ≤ n)
IsCut n (c ∷ d ∷ cs) = (length c ≡ n) × IsCut n (d ∷ cs)

IsCut-cons :
    (n : ℕ) (c : List ℕ) (cs : List (List ℕ)) → 0 < n → length c ≡ n → IsCut n cs → IsCut n (c ∷ cs)
IsCut-cons n c [] h l is = omega arith
IsCut-cons n c (d ∷ cs) h l is = (l, is)

module _ (fuel : ℕ) (stream : List ℕ) (id n position index : ℕ) (frames : List Frame) where
  -- The three ways through a round of the loop.
  partition_loop_end :
      length stream ≤ position
      → partition_loop (suc fuel) stream id n position index frames ≡ ok frames
  unfolding partition_loop
  partition_loop_end h = ground arith

  partition_loop_last :
      position < length stream
      → length stream - position < n
      → partition_loop (suc fuel) stream id n position index frames
        ≡ ok (frames ++ (fragment id index (drop position stream) ∷ []))
  unfolding partition_loop
  partition_loop_last h short = ground (arith, length-drop position stream)

  partition_loop_next :
      position < length stream
      → n ≤ length stream - position
      → partition_loop (suc fuel) stream id n position index frames
        ≡ partition_loop fuel stream id n
            (position + n)
            ((index + 1) % 2 ^ 32)
            (frames ++ (fragment id index (take n (drop position stream)) ∷ []))
  unfolding partition_loop
  partition_loop_next h full = ground (arith, length-drop position stream)

-- What the loop adds to the frames that it has, from a position on.
Splits : ℕ → List ℕ → ℕ → ℕ → ℕ → ℕ → List Frame → Type 0
Splits fuel stream id n position index frames =
    (chunks : List (List ℕ)) × (partition_loop fuel stream id n position index frames
      ≡ ok (frames ++ labelled 0 id index chunks))
    × (flatten chunks ≡ drop position stream)
    × IsCut n chunks

Splits-next :
    (fuel : ℕ) (stream : List ℕ) (id n position index : ℕ) (frames : List Frame)
    → 0 < n
    → position < length stream
    → n ≤ length stream - position
    → index + 1 < 2 ^ 32
    → Splits fuel stream id n
        (position + n)
        (index + 1)
        (frames ++ (fragment id index (take n (drop position stream)) ∷ []))
    → Splits (suc fuel) stream id n position index frames
unfolding Splits fragment flatten
Splits-next fuel stream id n position index frames h more full small (chunks, e, whole, is) =
    let rest = drop position stream in
    let next : (index + 1) % 2 ^ 32 ≡ index + 1 = omega arith in
    let size : length (take n rest) ≡ n =
      omega (arith, length-take n rest, length-drop position stream) in
    (
      take n rest ∷ chunks,
      partition_loop_next fuel stream id n position index frames more full
          ∙ rw next (e ∙ ap ok (append_assoc frames _ (labelled 0 id (index + 1) chunks))),
      ap (◌++◌ (take n rest)) (whole ∙ drop-drop (position + n) position n stream refl)
          ∙ take-append-drop n rest,
      IsCut-cons n (take n rest) chunks h size is,
    )

partition_loop-Splits :
    (fuel : ℕ) (stream : List ℕ) (id n position index : ℕ) (frames : List Frame)
    → 0 < n
    → position ≤ length stream
    → length stream < position + fuel
    → index + (length stream - position) < 2 ^ 32
    → Splits fuel stream id n position index frames
unfolding Splits fragment flatten
partition_loop-Splits zero stream id n position index frames h within enough small =
    absurd (omega arith)
partition_loop-Splits (suc fuel) stream id n position index frames h within enough small =
    elim (dec_lt position (length stream)) [
      | no end ↦ (
        [],
        partition_loop_end fuel stream id n position index frames (omega arith)
            ∙ ap ok (sym (append-nil frames)),
        sym (drop-length position stream (omega arith)),
        tt,
      )
      | yes more ↦ elim (dec_lt (length stream - position) n) [
        | yes last ↦ (
          drop position stream ∷ [],
          partition_loop_last fuel stream id n position index frames more last,
          append-nil (drop position stream),
          omega (arith, length-drop position stream),
        )
        | no full ↦
            Splits-next fuel stream id n position index frames h more (omega arith) (omega arith) (
              partition_loop-Splits fuel stream id n (position + n) (index + 1) _ h (omega arith)
                (omega arith) (omega arith))
      ]
    ]

length-labelled :
    (size id index : ℕ) (chunks : List (List ℕ))
    → length (labelled size id index chunks) ≡ length chunks
length-labelled size id index [] = refl
length-labelled size id index (c ∷ cs) = ap suc (length-labelled size id (index + 1) cs)

set_size-labelled :
    (n id index : ℕ) (chunks : List (List ℕ))
    → map (set_size n) (labelled 0 id index chunks) ≡ labelled n id index chunks
unfolding set_size
set_size-labelled n id index [] = refl
set_size-labelled n id index (c ∷ cs) = rw (set_size-labelled n id (index + 1) cs)

IsCut-count :
    (n : ℕ) (chunks : List (List ℕ))
    → 0 < n
    → IsCut n chunks
    → length chunks ≤ length (flatten chunks)
unfolding flatten
IsCut-count n [] h is = omega arith
IsCut-count n (c ∷ []) h is = omega (arith, length-append c [])
IsCut-count n (c ∷ d ∷ cs) h is =
    omega (arith, length-append c (flatten (d ∷ cs)), IsCut-count n (d ∷ cs) h is.1)

-- A payload below 4 GiB and a fragment size above 0: `partition` ends, and its frames hold, in
-- order, the pieces of a cut of the payload. All pieces but the last have exactly the fragment size,
-- the last has at least one byte and at most that. The frames carry the given id, the indexes 0, 1,
-- … and, each, the number of the pieces.
pub partition_lem :
    (stream : List ℕ) (id n : ℕ)
    → 0 < n
    → length stream < 2 ^ 32
    → (chunks : List (List ℕ)) × (partition stream id n ≡ ok (labelled (length chunks) id 0 chunks))
      × (flatten chunks ≡ stream)
      × IsCut n chunks
unfolding partition Splits
partition_lem stream id n h small =
    let (chunks, e, whole, is) =
      partition_loop-Splits (length stream + 1) stream id n 0 0 [] h (omega arith) (omega arith)
        (omega arith) in
    let count : length chunks % 2 ^ 32 ≡ length chunks =
      omega (arith, IsCut-count n chunks h is, ap length whole) in
    (
      chunks,
      rw (e, length-labelled 0 id 0 chunks, count, set_size-labelled (length chunks) id 0 chunks),
      whole,
      is,
    )

cut_one :
    (n id : ℕ) (stream : List ℕ) (chunks : List (List ℕ))
    → 0 < length stream
    → length stream < n
    → flatten chunks ≡ stream
    → IsCut n chunks
    → chunks ≡ stream ∷ []
unfolding flatten
cut_one n id stream [] some_bytes short whole is = absurd (omega (arith, ap length whole))
cut_one n id stream (c ∷ []) some_bytes short whole is =
    ap (λ x. x ∷ []) (sym (append-nil c) ∙ whole)
cut_one n id stream (c ∷ d ∷ cs) some_bytes short whole is =
    absurd (omega (arith, is.0, ap length whole, length-append c (flatten (d ∷ cs))))

-- A payload shorter than a fragment is one fragment.
pub partition_one :
    (stream : List ℕ) (id n : ℕ)
    → 0 < length stream
    → length stream < n
    → length stream < 2 ^ 32
    → partition stream id n ≡ ok (labelled 1 id 0 (stream ∷ []))
partition_one stream id n some_bytes short small =
    let (chunks, e, whole, is) = partition_lem stream id n (omega arith) small in
    e
    ∙ ap (λ cs. ok (labelled (length cs) id 0 cs))
        (cut_one n id stream chunks some_bytes short whole is)

partition_loop-zero :
    (fuel : ℕ) (stream : List ℕ) (id position index : ℕ) (frames : List Frame)
    → position < length stream
    → partition_loop fuel stream id 0 position index frames ≡ stuck
unfolding partition_loop
partition_loop-zero zero stream id position index frames h = refl
partition_loop-zero (suc fuel) stream id position index frames h = ground (
  arith,
  partition_loop-zero fuel stream id (position + 0) ((index + 1) % 2 ^ 32)
      (frames ++ (fragment id index [] ∷ [])),
)

-- With the fragment size 0 and a payload that is not empty the loop never ends: no fuel is enough.
pub partition_diverges :
    (fuel : ℕ) (stream : List ℕ) (id : ℕ)
    → 0 < length stream
    → partition_loop fuel stream id 0 0 0 [] ≡ stuck
partition_diverges fuel stream id h = partition_loop-zero fuel stream id 0 0 [] h
