-- ===== src/Receive/Parts.antt =====
-- The parts of a fragmented frame as they are kept, by the index of each, and their order.
use mathlib.Core.List.{Permᴰ, flatten}
use mathlib.Core.List.Permᴰ
use netrex_rak_net.Prelude.{
  ℕ, suc, ◌+◌, ◌≡◌, refl, sym, ap, ◌∙◌, false, List, [], ◌∷◌, ◌++◌, map, length, ◌==◌, none, some,
  arith, All,
}
use netrex_rak_net.Prelude.Table.{insert, contains_key, Distinct}
use netrex_rak_net.OrderedQueue.Flush.{Rising}
use netrex_rak_net.OrderedQueue.Sorted.{sort_by_key_unique, Distinct-Perm, Rising-Distinct}
use netrex_rak_net.Frame.{Frame, FragmentMeta}
use netrex_rak_net.Receive.{reassemble}

-- The index of a fragment.
abbrev pub index_of : Frame → ℕ
index_of f = elim f.fragment_meta [ none ↦ 0 | some meta ↦ meta.index ]

abbrev pub part : Frame → ℕ × Frame
part f = (index_of f, f)

-- A fragment of the frame `id` of `n` fragments.
abbrev pub IsPart : ℕ → ℕ → Frame → Type 0
IsPart n id f = f.fragment_meta ≡ some (record { size = n; id = id; index = index_of f })

-- The frames are fragments of the frame `id` of `n` fragments, with the given bodies and with the
-- indexes from `i` on.
abbrev pub AreParts : ℕ → ℕ → ℕ → List (List ℕ) → List Frame → Type 0
AreParts n id i [] [] = Unit
AreParts n id i [] (f ∷ fs) = ⊥
AreParts n id i (c ∷ cs) [] = ⊥
AreParts n id i (c ∷ cs) (f ∷ fs) =
    (f.fragment_meta ≡ some (record { size = n; id = id; index = i }))
    × (f.body ≡ c)
    × AreParts n id (i + 1) cs fs

pub AreParts-length :
    (n id i : ℕ) (cs : List (List ℕ)) (fs : List Frame)
    → AreParts n id i cs fs
    → length fs ≡ length cs
AreParts-length n id i [] [] p = refl
AreParts-length n id i [] (f ∷ fs) p = absurd p
AreParts-length n id i (c ∷ cs) [] p = absurd p
AreParts-length n id i (c ∷ cs) (f ∷ fs) (m, b, p) = ap suc (AreParts-length n id (i + 1) cs fs p)

index-meta : (f : Frame) (m : FragmentMeta) → f.fragment_meta ≡ some m → index_of f ≡ m.index
index-meta f m e = rw e refl

pub AreParts-IsPart :
    (n id i : ℕ) (cs : List (List ℕ)) (fs : List Frame)
    → AreParts n id i cs fs
    → All (IsPart n id) fs
AreParts-IsPart n id i [] [] p = tt
AreParts-IsPart n id i [] (f ∷ fs) p = absurd p
AreParts-IsPart n id i (c ∷ cs) [] p = absurd p
AreParts-IsPart n id i (c ∷ cs) (f ∷ fs) (m, b, p) = (
  m ∙ ap (λ (j : ℕ). some (record { size = n; id = id; index = j })) (sym (index-meta f _ m)),
  AreParts-IsPart n id (i + 1) cs fs p,
)

AreParts-Rising :
    (n id i : ℕ) (cs : List (List ℕ)) (fs : List Frame)
    → AreParts n id i cs fs
    → Rising (map part fs)
AreParts-Rising n id i [] [] p = tt
AreParts-Rising n id i [] (f ∷ fs) p = absurd p
AreParts-Rising n id i (c ∷ cs) [] p = absurd p
AreParts-Rising n id i (c ∷ []) (f ∷ []) (m, b, p) = tt
AreParts-Rising n id i (c ∷ []) (f ∷ g ∷ fs) (m, b, p) = absurd p
AreParts-Rising n id i (c ∷ d ∷ cs) (f ∷ []) (m, b, p) = absurd p
AreParts-Rising n id i (c ∷ d ∷ cs) (f ∷ g ∷ fs) (m, b, p) = (
  rw (index-meta f _ m, index-meta g _ p.0) (omega arith),
  AreParts-Rising n id (i + 1) (d ∷ cs) (g ∷ fs) p,
)

AreParts-bodies :
    (n id i : ℕ) (cs : List (List ℕ)) (fs : List Frame)
    → AreParts n id i cs fs
    → map (λ (e : ℕ × Frame). e.1.body) (map part fs) ≡ cs
AreParts-bodies n id i [] [] p = refl
AreParts-bodies n id i [] (f ∷ fs) p = absurd p
AreParts-bodies n id i (c ∷ cs) [] p = absurd p
AreParts-bodies n id i (c ∷ cs) (f ∷ fs) (m, b, p) =
    rw (b, AreParts-bodies n id (i + 1) cs fs p) refl

pub AreParts-Distinct :
    (n id i : ℕ) (cs : List (List ℕ)) (fs : List Frame) {arrived : List Frame}
    → AreParts n id i cs fs
    → Permᴰ arrived fs
    → Distinct (map part arrived)
AreParts-Distinct n id i cs fs p e =
    Distinct-Perm (Permᴰ.map part e)
      (Rising-Distinct (map part fs) (AreParts-Rising n id i cs fs p))

-- Sorted by their indexes the parts are those of the frame, whatever order they are kept in.
pub reassemble-AreParts :
    (n id i : ℕ) (cs : List (List ℕ)) (fs : List Frame) {arrived : List Frame}
    → AreParts n id i cs fs
    → Permᴰ arrived fs
    → reassemble (map part arrived) ≡ flatten cs
unfolding reassemble
reassemble-AreParts n id i cs fs p e =
    rw
      (
        sort_by_key_unique (Permᴰ.map part e) (AreParts-Rising n id i cs fs p),
        AreParts-bodies n id i cs fs p,
      )
      refl

pub All-Perm {κ} : (P : Frame → Type κ) {xs ys : List Frame} → Permᴰ xs ys → All P ys → All P xs
All-Perm P Permᴰ.nil a = tt
All-Perm P (Permᴰ.cons e p) a = (rw e a.0, All-Perm P p a.1)
All-Perm P (Permᴰ.swap e e') a = (rw e (a.1.0), (rw e' (a.0), a.1.1))
All-Perm P (Permᴰ.trans p q) a = All-Perm P p (All-Perm P q a)

pub Perm-length : {xs ys : List Frame} → Permᴰ xs ys → length xs ≡ length ys
Perm-length Permᴰ.nil = refl
Perm-length (Permᴰ.cons e p) = ap suc (Perm-length p)
Perm-length (Permᴰ.swap e e') = refl
Perm-length (Permᴰ.trans p q) = Perm-length p ∙ Perm-length q

module _ {ℓ} {V : Type ℓ} where
  pub insert-append :
      (k : ℕ) (v : V) (m : List (ℕ × V))
      → contains_key k m ≡ false
      → insert k v m ≡ m ++ ((k, v) ∷ [])
  insert-append k v [] h = refl
  insert-append k v ((j, w) ∷ m) h = ground (arith, insert-append k v m)

  pub insert_twice : (k : ℕ) (v w : V) (m : List (ℕ × V)) → insert k v (insert k w m) ≡ insert k v m
  insert_twice k v w [] = ground arith
  insert_twice k v w ((j, x) ∷ m) = ground (arith, insert_twice k v w m)

  contains_key-middle :
      (j k : ℕ) (v : V) (xs ys : List (ℕ × V))
      → contains_key j (xs ++ ((k, v) ∷ ys)) ≡ false
      → (k == j) ≡ false
  contains_key-middle j k v [] ys h = ground arith
  contains_key-middle j k v ((i, w) ∷ xs) ys h = ground (arith, contains_key-middle j k v xs ys)

  pub Distinct-middle :
      (k : ℕ) (v : V) (xs ys : List (ℕ × V))
      → Distinct (xs ++ ((k, v) ∷ ys))
      → contains_key k xs ≡ false
  Distinct-middle k v [] ys d = refl
  Distinct-middle k v ((j, w) ∷ xs) ys d =
      ground (arith, contains_key-middle j k v xs ys, d.0, Distinct-middle k v xs ys d.1)
