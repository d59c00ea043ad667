-- ===== src/Wire/Cuts.antt =====
-- When a read panics on every source that ends inside the bytes that it takes.
use netrex_rak_net.Prelude.{
  ℕ, ◌+◌, ◌<◌, ◌≤◌, ◌≡◌, refl, ap, ◌∙◌, List, [], ◌∷◌, ◌++◌, length, drop, panic, arith,
  length-append, lt→leb, ◌⊎◌, inl, inr,
}
use netrex_rak_net.Wire.{
  ByteOrder, Reader, ◌>>=◌, done, unwrap_read, read_exact, read_u8, read_u16_be, read_u24_le,
}
use netrex_rak_net.Wire.Reads.{Reads, behind}

pub record Cuts {ℓ} {A : Type ℓ} (m : Reader A) (bs : List ℕ) : Type ℓ where
  pub run :
      (source front back : List ℕ) (x position : ℕ)
      → drop position source ≡ front
      → bs ≡ front ++ (x ∷ back)
      → position ≤ length source
      → m source position ≡ panic

-- A proper prefix of two lists in a row is one of the first, or the first with one of the second.
prefix_cases :
    (bs cs front back : List ℕ) (x : ℕ)
    → bs ++ cs ≡ front ++ (x ∷ back)
    → ((y : ℕ) × (back' : List ℕ) × (bs ≡ front ++ (y ∷ back')))
      ⊎ ((front' : List ℕ) × (front ≡ bs ++ front') × (cs ≡ front' ++ (x ∷ back)))
prefix_cases [] cs front back x e = inr (front, refl, e)
prefix_cases (b ∷ bs) cs [] back x e = inl (b, bs, refl)
prefix_cases (b ∷ bs) cs (c ∷ front) back x e = elim (prefix_cases bs cs front back x (cc)) [
  | inl (y, back', e') ↦ inl (y, back', cc)
  | inr (front', e', e'') ↦ inr (front', cc, e'')
]

module _ {ℓ κ} {A : Type ℓ} {B : Type κ} where
  pub Cuts->>= :
      {m : Reader A} (f : A → Reader B) {bs cs : List ℕ} {a : A}
      → Reads m bs a
      → Cuts m bs
      → Cuts (f a) cs
      → Cuts (m >>= f) (bs ++ cs)
  Cuts->>= {m} f {bs} {cs} {a} reads first second = record {
    run = λ source front back x position e split h. elim (prefix_cases bs cs front back x split) [
      | inl (y, back', e') ↦ rw (first.run source front back' y position e e' h, ◌>>=◌)
      | inr (front', e', e'') ↦
          let (there, within) = behind source bs front' position (e ∙ e') h in
          rw (reads.run source front' position (e ∙ e') h, ◌>>=◌)
            (second.run source front' back x (position + length bs) there e'' within)
    ];
  }

  pub Cuts->>=_done :
      {m : Reader A} (f : A → B) {bs : List ℕ} → Cuts m bs → Cuts (m >>= λ x. done (f x)) bs
  Cuts->>=_done {m} f {bs} cuts = record {
    run = λ source front back x position e split h.
        rw (cuts.run source front back x position e split h, ◌>>=◌);
  }

module _ {ℓ} {A : Type ℓ} where
  pub Cuts-done : (a : A) → Cuts (done a) []
  Cuts-done a = record {
    run = λ source front back x position e split h.
        absurd (omega (arith, ap length split, length-append front (x ∷ back)));
  }

length-zero : (xs : List ℕ) → length xs ≡ 0 → xs ≡ []
length-zero [] h = refl
length-zero (x ∷ xs) h = absurd (omega arith)

pub Cuts-read_u8 : (b : ℕ) → Cuts (unwrap_read read_u8) (b ∷ [])
unfolding read_u8
Cuts-read_u8 b = record {
  run = λ source front back x position e split h.
      let nothing =
        length-zero front (omega (arith, ap length split, length-append front (x ∷ back))) in
      rw (e ∙ nothing, read_u8, unwrap_read);
}

Cuts-convert :
    (width : ℕ) (get : List ℕ → ℕ) (bs : List ℕ)
    → length bs ≡ width
    → Cuts (unwrap_read (read_exact width >>= λ cs. done (get cs))) bs
unfolding read_exact
Cuts-convert width get bs l = record {
  run = λ source front back x position e split h.
      let short : length front < width =
        omega (arith, ap length split, length-append front (x ∷ back)) in
      rw (e, lt→leb width (length front) short, ◌>>=◌, unwrap_read);
}

module _ (b : ByteOrder) where
  pub Cuts-u16_be : (bs : List ℕ) → length bs ≡ 2 → Cuts (unwrap_read (read_u16_be b)) bs
  unfolding read_u16_be
  Cuts-u16_be bs l = Cuts-convert 2 b.get_u16_be bs l

  pub Cuts-u24_le : (bs : List ℕ) → length bs ≡ 3 → Cuts (unwrap_read (read_u24_le b)) bs
  unfolding read_u24_le
  Cuts-u24_le bs l = Cuts-convert 3 b.get_u24_le bs l
