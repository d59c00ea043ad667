-- ===== src/Prelude/Names.antt =====
-- `std::collections::HashMap` with texts for keys, as an association list with one entry a key. A `HashMap`
-- has no order of its own: an entry that is inserted stands first here.
use Prim.Native.String.{String}
use text.Mathlib.Text
use text.Mathlib.TextPositions.{eq_refl}
use text.Mathlib.TextEquality.{eq_iff}
use mathlib.Core.Path.{◌≡◌, refl, sym, subst, ◌∙◌}
use mathlib.Core.Bool.{Bool, true, false}
use mathlib.Core.Option.{Option, none, some, some-injective}
use mathlib.Core.List.{List, [], ◌∷◌, map}
use native.Mathlib.Omega.{arith}
use netrex_rak_net.Prelude.Tests.{if◌then◌else◌}
use netrex_rak_net.Prelude.Lists.{All}

abbrev pub same : String → String → Bool
same s t = Text.◌==◌ s t

pub same_refl : (s : String) → same s s ≡ true
same_refl s = eq_refl s

abbrev pub member : String → List String → Bool
member k [] = false
member k (j ∷ js) = if same j k then true else member k js

module _ {ℓ} {V : Type ℓ} where
  abbrev pub find : String → List (String × V) → Option V
  find k [] = none
  find k ((j, v) ∷ m) = if same j k then some v else find k m

  -- `remove`.
  abbrev pub without : String → List (String × V) → List (String × V)
  without k [] = []
  without k ((j, v) ∷ m) = if same j k then without k m else (j, v) ∷ without k m

  -- `insert`, and the end of a change through `get_mut`.
  abbrev pub put : String → V → List (String × V) → List (String × V)
  put k v m = (k, v) ∷ without k m

  abbrev pub names : List (String × V) → List String
  names m = map (λ e. e.0) m

  -- No name stands twice.
  abbrev pub DistinctNames : List (String × V) → Type 0
  DistinctNames [] = Unit
  DistinctNames ((k, v) ∷ m) = (member k (names m) ≡ false) × DistinctNames m

  pub member-without : (k : String) (m : List (String × V)) → member k (names (without k m)) ≡ false
  member-without k [] = refl
  member-without k ((j, v) ∷ m) = ground (arith, member-without k m)

  member-without_other :
      (k i : String) (m : List (String × V))
      → member i (names m) ≡ false
      → member i (names (without k m)) ≡ false
  member-without_other k i [] h = refl
  member-without_other k i ((j, v) ∷ m) h = ground (arith, member-without_other k i m)

  pub DistinctNames-without :
      (k : String) (m : List (String × V)) → DistinctNames m → DistinctNames (without k m)
  DistinctNames-without k [] d = tt
  DistinctNames-without k ((j, v) ∷ m) d =
      ground (arith, member-without_other k j m, DistinctNames-without k m d.1)

  -- What holds of each entry still does, and of those that are left more is known.
  pub All-without {κ μ} :
      (P : String × V → Type κ) (Q : String × V → Type μ) (k : String) (m : List (String × V))
      → ((e : String × V) → same e.0 k ≡ false → P e → Q e)
      → All P m
      → All Q (without k m)
  All-without P Q k [] f h = tt
  All-without P Q k ((j, v) ∷ m) f h = go (same j k) refl (All-without P Q k m f h.1)
    where
      go :
          (t : Bool)
          → same j k ≡ t
          → All Q (without k m)
          → All Q (if t then without k m else (j, v) ∷ without k m)
      go true e rest = rest
      go false e rest = (f (j, v) e h.0, rest)

  pub find-All {κ} :
      (P : String × V → Type κ) (k : String) (m : List (String × V)) (v : V)
      → All P m
      → find k m ≡ some v
      → P (k, v)
  find-All P k [] v h e = absurd (cc)
  find-All P k ((j, w) ∷ m) v h e = go (same j k) refl e (find-All P k m v h.1)
    where
      go :
          (t : Bool)
          → same j k ≡ t
          → (if t then some w else find k m) ≡ some v
          → (find k m ≡ some v → P (k, v))
          → P (k, v)
      go true is e rest =
          subst (λ x. P (k, x)) (some-injective w v e)
            (subst (λ i. P (i, w)) ((eq_iff j k).0 is) h.0)
      go false is e rest = rest e

  pub find-without :
      (k i : String) (m : List (String × V)) → same k i ≡ false → find i (without k m) ≡ find i m
  find-without k i [] h = refl
  find-without k i ((j, v) ∷ m) h = go (same j k) refl (find-without k i m h)
    where
      go :
          (t : Bool)
          → same j k ≡ t
          → find i (without k m) ≡ find i m
          → find i (if t then without k m else (j, v) ∷ without k m)
            ≡ (if same j i then some v else find i m)
      go true is rest = rw (subst (λ x. same x i ≡ false) (sym ((eq_iff j k).0 is)) h) rest
      go false is rest = rw rest refl

  pub find-put :
      (k i : String) (v : V) (m : List (String × V))
      → same k i ≡ false
      → find i (put k v m) ≡ find i m
  find-put k i v m h = rw h (find-without k i m h)

  pub found_in_put :
      (t k : String) (v : V) (m : List (String × V))
      → find k (put t v m) ≡ (if same t k then some v else find k m)
  found_in_put t k v m = go (same t k) refl
    where
      go :
          (x : Bool)
          → same t k ≡ x
          → (if x then some v else find k (without t m)) ≡ (if x then some v else find k m)
      go true e = refl
      go false e = find-without t k m e

pub same-false : (s t : String) → same s t ≡ false → same t s ≡ false
same-false s t h = go (same t s) refl
  where
    go : (x : Bool) → same t s ≡ x → x ≡ false
    go true e = sym (same_refl s) ∙ (subst (λ x. same s x ≡ false) ((eq_iff t s).0 e) h)
    go false e = refl
