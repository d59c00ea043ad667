-- ===== src/OrderedQueue/Sorted.antt =====
-- The sort by key gives the same list for every order of a table's entries.
use mathlib.Core.List.{Permᴰ}
use native.Mathlib.Decide.{dec_lt}
use netrex_rak_net.Prelude.{
  ℕ, ◌<◌, ◌≤◌, ◌≡◌, refl, sym, ap, subst, ◌∙◌, false, List, [], ◌∷◌, ◌==◌, arith, le→leb, lt→leb,
}
use netrex_rak_net.Prelude.Table.{contains_key, Distinct}
use netrex_rak_net.OrderedQueue.{sort_insert, sort_by_key}
use netrex_rak_net.OrderedQueue.Flush.{Rising}

module _ {ℓ} {T : Type ℓ} where
  sort_insert_comm_lt :
      (k j : ℕ) (v w : T) (m : List (ℕ × T))
      → k < j
      → sort_insert (k, v) (sort_insert (j, w) m) ≡ sort_insert (j, w) (sort_insert (k, v) m)
  unfolding sort_insert
  sort_insert_comm_lt k j v w [] h = ground arith
  sort_insert_comm_lt k j v w ((i, x) ∷ m) h =
      let rest = sort_insert_comm_lt k j v w m h in
      elim (dec_lt i j) [
        | no above ↦
            rw
              (
                le→leb j i (omega arith),
                le→leb k j (omega arith),
                le→leb k i (omega arith),
                lt→leb j k h,
              )
              (rw (le→leb j i (omega arith)) refl)
        | yes below ↦ elim (dec_lt i k) [
          | no before ↦
              rw (lt→leb j i below, le→leb k i (omega arith), lt→leb j k h)
                (rw (lt→leb j i below) refl)
          | yes behind ↦
              rw (lt→leb j i below, lt→leb k i behind)
                (rw (lt→leb j i below) (ap (◌∷◌ (i, x)) rest))
        ]
      ]

  sort_insert_comm :
      (k j : ℕ) (v w : T) (m : List (ℕ × T))
      → (k == j) ≡ false
      → sort_insert (k, v) (sort_insert (j, w) m) ≡ sort_insert (j, w) (sort_insert (k, v) m)
  sort_insert_comm k j v w m h = elim (dec_lt k j) [
    | yes lower ↦ sort_insert_comm_lt k j v w m lower
    | no upper ↦ sym (sort_insert_comm_lt j k w v m (ground arith))
  ]

  pub contains_key-Perm :
      {xs ys : List (ℕ × T)} → Permᴰ xs ys → (j : ℕ) → contains_key j xs ≡ contains_key j ys
  contains_key-Perm Permᴰ.nil j = refl
  contains_key-Perm (Permᴰ.cons e p) j = rw (e, contains_key-Perm p j) refl
  contains_key-Perm (Permᴰ.swap {a = a} {b = b} {l = l} e e') j = rw (sym e, sym e') (ground arith)
  contains_key-Perm (Permᴰ.trans p q) j = contains_key-Perm p j ∙ contains_key-Perm q j

  Distinct-swap :
      (k j : ℕ) (v w : T) (m : List (ℕ × T))
      → Distinct ((k, v) ∷ (j, w) ∷ m)
      → Distinct ((j, w) ∷ (k, v) ∷ m)
  Distinct-swap k j v w m d = ground (arith, d.0, d.1)

  pub Distinct-Perm : {xs ys : List (ℕ × T)} → Permᴰ xs ys → Distinct ys → Distinct xs
  Distinct-Perm Permᴰ.nil d = d
  Distinct-Perm (Permᴰ.cons {b = b} e p) d =
      rw e (contains_key-Perm p b.0 ∙ d.0, Distinct-Perm p d.1)
  Distinct-Perm (Permᴰ.swap {b = b} {a' = (k, v)} {b' = (j, w)} {l = l} e e') d =
      subst (λ x. Distinct (x ∷ b ∷ l)) (sym e)
        (subst (λ y. Distinct ((j, w) ∷ y ∷ l)) (sym e') (Distinct-swap k j v w l d))
  Distinct-Perm (Permᴰ.trans p q) d = Distinct-Perm p (Distinct-Perm q d)

  sort_by_key-Perm :
      {xs ys : List (ℕ × T)} → Permᴰ xs ys → Distinct ys → sort_by_key xs ≡ sort_by_key ys
  unfolding sort_by_key
  sort_by_key-Perm Permᴰ.nil d = refl
  sort_by_key-Perm (Permᴰ.cons e p) d = rw (e, sort_by_key-Perm p d.1) refl
  sort_by_key-Perm (Permᴰ.swap {a' = (k, v)} {b' = (j, w)} {l = l} e e') d =
      rw (e, e') (sort_insert_comm j k w v (sort_by_key l) (ground (arith, d)))
  sort_by_key-Perm (Permᴰ.trans p q) d =
      sort_by_key-Perm p (Distinct-Perm q d) ∙ sort_by_key-Perm q d

  sort_by_key-Rising : (m : List (ℕ × T)) → Rising m → sort_by_key m ≡ m
  unfolding sort_by_key sort_insert
  sort_by_key-Rising [] r = refl
  sort_by_key-Rising ((k, v) ∷ []) r = refl
  sort_by_key-Rising ((k, v) ∷ (j, w) ∷ m) r =
      rw (sort_by_key-Rising ((j, w) ∷ m) r.1) (ground (arith, r.0))

  pub Rising-above :
      (k i : ℕ) (v : T) (m : List (ℕ × T)) → Rising ((k, v) ∷ m) → i ≤ k → contains_key i m ≡ false
  Rising-above k i v [] r h = refl
  Rising-above k i v ((j, w) ∷ m) r h = ground (arith, r.0, Rising-above j i w m r.1)

  pub Rising-Distinct : (m : List (ℕ × T)) → Rising m → Distinct m
  Rising-Distinct [] r = tt
  Rising-Distinct ((k, v) ∷ []) r = (refl, tt)
  Rising-Distinct ((k, v) ∷ (j, w) ∷ m) r =
      (Rising-above k k v ((j, w) ∷ m) r (omega arith), Rising-Distinct ((j, w) ∷ m) r.1)

  pub sort_by_key_unique : {xs ys : List (ℕ × T)} → Permᴰ xs ys → Rising ys → sort_by_key xs ≡ ys
  sort_by_key_unique {ys = ys} p r =
      sort_by_key-Perm p (Rising-Distinct ys r) ∙ sort_by_key-Rising ys r
