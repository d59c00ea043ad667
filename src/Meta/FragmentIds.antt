-- ===== src/Meta/FragmentIds.antt =====
-- The fragment ids: handed out by the number of those in use.
use netrex_rak_net.Prelude.{
  ℕ, zero, suc, ◌+◌, ◌-◌, ◌%◌, ◌^◌, ◌<◌, ◌≤◌, ◌≡◌, refl, subst, arith, ltb, ◌∙◌, length, true,
  false,
}
use netrex_rak_net.Prelude.Table.{
  contains_key, remove, contains_key-insert, contains_key-remove_other, length-insert_new,
  length-remove,
}
use netrex_rak_net.Meta.{RakConnHandlerMeta, new, next_fragment_id, free_fragment_id}

-- `n` ids handed out in a row.
pub allocate : ℕ → RakConnHandlerMeta → RakConnHandlerMeta
allocate zero m = m
allocate (suc n) m = allocate n (next_fragment_id m).0

-- The ids in use are those below `n`.
pub record IsGapless (n : ℕ) (m : RakConnHandlerMeta) : Type 0 where
  pub count : length m.fragment_ids ≡ n
  pub used : (i : ℕ) → contains_key i m.fragment_ids ≡ ltb i n

-- Where the ids in use are those below a number, that number is the next id, and is not in use.
pub next_fragment_id_fresh :
    (n : ℕ) (m : RakConnHandlerMeta)
    → IsGapless n m
    → n < 2 ^ 16
    → let (m', id) = next_fragment_id m in
      (id ≡ n) × (contains_key id m.fragment_ids ≡ false) × IsGapless (n + 1) m'
unfolding next_fragment_id
next_fragment_id_fresh n m g small =
    let same : length m.fragment_ids % 2 ^ 16 ≡ n = omega (arith, g.count) in
    let fresh : contains_key n m.fragment_ids ≡ false = ground (arith, g.used n) in
    (
      same,
      rw same fresh,
      rw same (record {
        count = omega (arith, length-insert_new n tt m.fragment_ids fresh, g.count);
        used = λ i. ground (arith, contains_key-insert n i tt m.fragment_ids, g.used i);
      }),
    )

allocate-IsGapless :
    (n k : ℕ) (m : RakConnHandlerMeta)
    → IsGapless k m
    → k + n ≤ 2 ^ 16
    → IsGapless (k + n) (allocate n m)
unfolding allocate
allocate-IsGapless zero k m g small = subst (λ j. IsGapless j m) (omega arith) g
allocate-IsGapless (suc n) k m g small =
    let (_, _, g') = next_fragment_id_fresh k m g (omega arith) in
    subst (λ j. IsGapless j (allocate n (next_fragment_id m).0)) (omega arith)
      (allocate-IsGapless n (k + 1) (next_fragment_id m).0 g' (omega arith))

new-IsGapless : IsGapless 0 new
unfolding new
new-IsGapless = record { count = refl; used = λ i. ground arith }

-- After `n` ids were handed out to a new connection and one of them, but not the last, was freed, the
-- next id is the last one again, which is still in use.
pub next_fragment_id_collides :
    (n id : ℕ)
    → id + 1 < n
    → n ≤ 2 ^ 16
    → let m = free_fragment_id (allocate n new) id in
      ((next_fragment_id m).1 ≡ n - 1) × (contains_key (next_fragment_id m).1 m.fragment_ids ≡ true)
unfolding next_fragment_id free_fragment_id
next_fragment_id_collides n id h small =
    let g = allocate-IsGapless n 0 new new-IsGapless (omega arith) in
    let ids = (allocate n new).fragment_ids in
    let freed = length-remove id ids (ground (arith, g.used id)) in
    let same : length (remove id ids) % 2 ^ 16 ≡ n - 1 = omega (arith, freed, g.count) in
    (
      same,
      rw same
          (contains_key-remove_other id (n - 1) ids (omega arith) ∙ ground (arith, g.used (n - 1))),
    )
