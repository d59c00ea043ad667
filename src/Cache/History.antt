-- ===== src/Cache/History.antt =====
-- What a history of additions leaves under a key.
use netrex_rak_net.Prelude.{
  ℕ, ◌≡◌, refl, ◌∙◌, true, false, List, [], ◌∷◌, ◌++◌, Option, none, some, arith, append_assoc,
  append-nil, ◌==◌, if◌then◌else◌, Bool-cases, inl, inr, ◌≢◌,
}
use netrex_rak_net.Prelude.Table.{
  remove, get, Distinct, Distinct-insert, get-insert, get-remove, contains_key-get,
}
use netrex_rak_net.Cache.{CacheStore, empty, add, entry, flush_key, has}

module _ {ℓ} {V : Type ℓ} where
  -- An addition: the key, the time, and the buffer.
  pub adds : CacheStore V → List (ℕ × ℕ × V) → CacheStore V
  adds c [] = c
  adds c ((key, now, buffer) ∷ es) = adds (add c key now buffer) es

  -- The buffers that were added under a key, in order.
  abbrev pub buffers : ℕ → List (ℕ × ℕ × V) → List V
  buffers k [] = []
  buffers k ((key, now, buffer) ∷ es) = if key == k then buffer ∷ buffers k es else buffers k es

  -- These with the time of the first, if there is one.
  abbrev pub held : ℕ → List (ℕ × ℕ × V) → Option (ℕ × List V)
  held k [] = none
  held k ((key, now, buffer) ∷ es) =
      if key == k then some (now, buffer ∷ buffers k es) else held k es

  abbrev extended : Option (ℕ × List V) → ℕ → List (ℕ × ℕ × V) → Option (ℕ × List V)
  extended none k es = held k es
  extended (some (time, vs)) k es = some (time, vs ++ buffers k es)

  get-add :
      (c : CacheStore V) (key now k : ℕ) (buffer : V)
      → get k (add c key now buffer).store ≡ (
          if key == k
          then some ((entry c key now).0, (entry c key now).1 ++ (buffer ∷ []))
          else get k c.store)
  unfolding add
  get-add c key now k buffer =
      get-insert key k ((entry c key now).0, (entry c key now).1 ++ (buffer ∷ [])) c.store

  abbrev or_new : Option (ℕ × List V) → ℕ → ℕ × List V
  or_new none now = (now, [])
  or_new (some e) now = e

  extended-same :
      (o : Option (ℕ × List V)) (key now k : ℕ) (buffer : V) (es : List (ℕ × ℕ × V))
      → (key == k) ≡ true
      → extended (some ((or_new o now).0, (or_new o now).1 ++ (buffer ∷ []))) k es
        ≡ extended o k ((key, now, buffer) ∷ es)
  extended-same none key now k buffer es h = rw h
  extended-same (some (time, vs)) key now k buffer es h =
      rw (h, append_assoc vs (buffer ∷ []) (buffers k es))

  extended-other :
      (o : Option (ℕ × List V)) (key now k : ℕ) (buffer : V) (es : List (ℕ × ℕ × V))
      → (key == k) ≡ false
      → extended o k es ≡ extended o k ((key, now, buffer) ∷ es)
  extended-other none key now k buffer es h = rw h
  extended-other (some (time, vs)) key now k buffer es h = rw h

  entry-or_new :
      (c : CacheStore V) (key now k : ℕ)
      → (key == k) ≡ true
      → entry c key now ≡ or_new (get k c.store) now
  entry-or_new c key now k h = let e : key ≡ k = ground arith in rw e (as_entry (get k c.store))
    where
      as_entry :
          (o : Option (ℕ × List V)) → (elim o [ none ↦ (now, []) | some e ↦ e ]) ≡ or_new o now
      as_entry none = refl
      as_entry (some e) = refl

  extended-add :
      (c : CacheStore V) (key now k : ℕ) (buffer : V) (es : List (ℕ × ℕ × V))
      → extended (get k (add c key now buffer).store) k es
        ≡ extended (get k c.store) k ((key, now, buffer) ∷ es)
  extended-add c key now k buffer es = elim (Bool-cases (key == k)) [
    | inl h ↦
        rw (get-add c key now k buffer, h, entry-or_new c key now k h)
          (extended-same (get k c.store) key now k buffer es h)
    | inr h ↦
        rw (get-add c key now k buffer, h) (extended-other (get k c.store) key now k buffer es h)
  ]

  extended-nil : (o : Option (ℕ × List V)) (k : ℕ) → o ≡ extended o k []
  extended-nil none k = refl
  extended-nil (some (time, vs)) k = simp append-nil

  get-adds :
      (c : CacheStore V) (es : List (ℕ × ℕ × V)) (k : ℕ)
      → get k (adds c es).store ≡ extended (get k c.store) k es
  unfolding adds
  get-adds c [] k = extended-nil (get k c.store) k
  get-adds c ((key, now, buffer) ∷ es) k =
      get-adds (add c key now buffer) es k ∙ extended-add c key now k buffer es

  adds-Distinct :
      (c : CacheStore V) (es : List (ℕ × ℕ × V)) → Distinct c.store → Distinct (adds c es).store
  unfolding adds add
  adds-Distinct c [] d = d
  adds-Distinct c ((key, now, buffer) ∷ es) d =
      adds-Distinct (add c key now buffer) es (Distinct-insert key _ c.store d)

  -- After any additions to an empty store, `flush_key` returns all buffers that were added under the
  -- key, in order, with the time of the first, or nothing if none was. It takes the key out, and
  -- leaves every other key as it was.
  pub flush_key-adds :
      (es : List (ℕ × ℕ × V)) (k : ℕ)
      → let c = adds empty es in
        let (c', flushed) = flush_key c k in
        (flushed ≡ held k es) × (has c' k ≡ false) × ((j : ℕ) → j ≢ k → get j c'.store ≡ held j es)
  unfolding flush_key has empty
  flush_key-adds es k =
      let m = (adds empty es).store in
      let d = adds-Distinct empty es tt in
      (
        get-adds empty es k,
        ground (arith, contains_key-get k (remove k m), get-remove k k m d),
        λ j ne. ground (arith, get-remove k j m d, get-adds empty es j),
      )
