-- ===== src/Prelude/Table.antt =====
-- `std::collections::HashMap` with numbers for keys, as an association list with one entry a key.
-- A new key is entered at the end; iteration follows the list. `HashSet` is the table of units.
use Prim.Native.Nat.{ℕ, ◌+◌}
use mathlib.Core.Path.{◌≡◌, refl, subst}
use mathlib.Core.Logic.{inl, inr, ◌≢◌}
use mathlib.Core.Bool.{Bool, true, false}
use mathlib.Core.Option.{Option, none, some}
use mathlib.Core.List.{List, [], ◌∷◌}
use native.Mathlib.Omega.{arith}
use netrex_rak_net.Prelude.Lists.{length, All}
use netrex_rak_net.Prelude.Tests.{Bool-cases, ◌==◌, if◌then◌else◌}

some_injective {ℓ} : {A : Type ℓ} {x y : A} → some x ≡ some y → x ≡ y
some_injective e = cc

module _ {ℓ} {V : Type ℓ} where
  abbrev pub get : ℕ → List (ℕ × V) → Option V
  get k [] = none
  get k ((j, v) ∷ m) = if j == k then some v else get k m

  abbrev pub contains_key : ℕ → List (ℕ × V) → Bool
  contains_key k [] = false
  contains_key k ((j, v) ∷ m) = if j == k then true else contains_key k m

  abbrev pub insert : ℕ → V → List (ℕ × V) → List (ℕ × V)
  insert k v [] = (k, v) ∷ []
  insert k v ((j, w) ∷ m) = if j == k then (k, v) ∷ m else (j, w) ∷ insert k v m

  abbrev pub remove : ℕ → List (ℕ × V) → List (ℕ × V)
  remove k [] = []
  remove k ((j, w) ∷ m) = if j == k then m else (j, w) ∷ remove k m

  pub get-insert :
      (k j : ℕ) (v : V) (m : List (ℕ × V))
      → get j (insert k v m) ≡ (if k == j then some v else get j m)
  get-insert k j v [] = refl
  get-insert k j v ((i, w) ∷ m) = ground (arith, get-insert k j v m)

  pub contains_key-insert :
      (k j : ℕ) (v : V) (m : List (ℕ × V))
      → contains_key j (insert k v m) ≡ (if k == j then true else contains_key j m)
  contains_key-insert k j v [] = refl
  contains_key-insert k j v ((i, w) ∷ m) = ground (arith, contains_key-insert k j v m)

  -- No key stands twice.
  abbrev pub Distinct : List (ℕ × V) → Type 0
  Distinct [] = Unit
  Distinct ((k, v) ∷ m) = (contains_key k m ≡ false) × Distinct m

  pub Distinct-insert : (k : ℕ) (v : V) (m : List (ℕ × V)) → Distinct m → Distinct (insert k v m)
  Distinct-insert k v [] d = (refl, tt)
  Distinct-insert k v ((j, w) ∷ m) d =
      ground (arith, contains_key-insert k j v m, Distinct-insert k v m d.1)

  pub get-not_contains : (k : ℕ) (m : List (ℕ × V)) → contains_key k m ≡ false → get k m ≡ none
  get-not_contains k [] h = refl
  get-not_contains k ((j, w) ∷ m) h = ground (arith, get-not_contains k m)

  pub contains_key-remove_ne :
      (k j : ℕ) (m : List (ℕ × V)) → contains_key j m ≡ false → contains_key j (remove k m) ≡ false
  contains_key-remove_ne k j [] h = refl
  contains_key-remove_ne k j ((i, w) ∷ m) h = ground (arith, contains_key-remove_ne k j m)

  pub Distinct-remove : (k : ℕ) (m : List (ℕ × V)) → Distinct m → Distinct (remove k m)
  Distinct-remove k [] d = tt
  Distinct-remove k ((j, w) ∷ m) d =
      ground (arith, contains_key-remove_ne k j m, Distinct-remove k m d.1)

  pub get-remove :
      (k j : ℕ) (m : List (ℕ × V))
      → Distinct m
      → get j (remove k m) ≡ (if k == j then none else get j m)
  get-remove k j [] d = ground arith
  get-remove k j ((i, w) ∷ m) d = ground (arith, get-not_contains k m, get-remove k j m d.1)

  pub contains_key-get :
      (k : ℕ) (m : List (ℕ × V))
      → contains_key k m ≡ elim (get k m) [ none ↦ false | some _ ↦ true ]
  contains_key-get k [] = refl
  contains_key-get k ((j, w) ∷ m) = ground (arith, contains_key-get k m)

  pub contains_key-remove_other :
      (k j : ℕ) (m : List (ℕ × V)) → j ≢ k → contains_key j (remove k m) ≡ contains_key j m
  contains_key-remove_other k j [] h = refl
  contains_key-remove_other k j ((i, w) ∷ m) h = ground (arith, contains_key-remove_other k j m)

  pub length-insert_new :
      (k : ℕ) (v : V) (m : List (ℕ × V))
      → contains_key k m ≡ false
      → length (insert k v m) ≡ length m + 1
  length-insert_new k v [] h = omega arith
  length-insert_new k v ((j, w) ∷ m) h = ground (arith, length-insert_new k v m)

  pub length-remove :
      (k : ℕ) (m : List (ℕ × V)) → contains_key k m ≡ true → length (remove k m) + 1 ≡ length m
  length-remove k [] h = cc
  length-remove k ((j, w) ∷ m) h = ground (arith, length-remove k m)

  -- What holds of each value.
  module _ {κ} (P : V → Type κ) where
    pub All-get : (k : ℕ) (v : V) (m : List (ℕ × V)) → All (λ e. P e.1) m → get k m ≡ some v → P v
    All-get k v [] h e = absurd (cc)
    All-get k v ((j, w) ∷ m) h e = elim (Bool-cases (j == k)) [
      | inl same ↦ subst P (some_injective (rw same at e)) h.0
      | inr other ↦ All-get k v m h.1 (rw other at e)
    ]

    pub All-insert :
        (k : ℕ) (v : V) (m : List (ℕ × V))
        → P v
        → All (λ e. P e.1) m
        → All (λ e. P e.1) (insert k v m)
    All-insert k v [] p h = (p, tt)
    All-insert k v ((j, w) ∷ m) p h = elim (Bool-cases (j == k)) [
      | inl same ↦ rw same (p, h.1)
      | inr other ↦ rw other (h.0, All-insert k v m p h.1)
    ]
