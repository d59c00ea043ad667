-- ===== src/Wire/Reads.antt =====
-- When a read takes given bytes off a source for a given value, wherever they stand in it.
use netrex_rak_net.Prelude.{
  ℕ, ◌+◌, ◌^◌, ◌<◌, ◌≤◌, ◌≡◌, refl, ap, ◌∙◌, some, List, [], ◌∷◌, ◌++◌, length, drop, ok, panic,
  arith, append_assoc, length-append, length-drop, drop-drop, take-length_append,
  drop-length_append, le→leb,
}
use netrex_rak_net.Wire.{
  ByteOrder, IsByteOrder, Reader, ◌>>=◌, done, unwrap_read, read_exact, read_u8, read_u16_be,
  read_u24_le, read_u32_be, read_slice,
}

-- `m` takes `bs` off any source that has it at the position, gives `a`, and stops behind `bs`.
pub record Reads {ℓ} {A : Type ℓ} (m : Reader A) (bs : List ℕ) (a : A) : Type ℓ where
  pub run :
      (source rest : List ℕ) (position : ℕ)
      → drop position source ≡ bs ++ rest
      → position ≤ length source
      → m source position ≡ ok (a, position + length bs)

pub behind :
    (source bs rest : List ℕ) (position : ℕ)
    → drop position source ≡ bs ++ rest
    → position ≤ length source
    → (drop (position + length bs) source ≡ rest) × (position + length bs ≤ length source)
behind source bs rest position e h = (
  drop-drop (position + length bs) position (length bs) source refl
      ∙ (ap (drop (length bs)) e ∙ drop-length_append (length bs) bs rest refl),
  omega (arith, ap length e, length-append bs rest, length-drop position source),
)

module _ {ℓ κ} {A : Type ℓ} {B : Type κ} where
  pub >>=-eq_ok :
      (m : Reader A) (f : A → Reader B) (source : List ℕ) {position position' : ℕ} {a : A}
      → m source position ≡ ok (a, position')
      → (m >>= f) source position ≡ f a source position'
  >>=-eq_ok m f source e = rw (e, ◌>>=◌)

  pub >>=-eq_panic :
      (m : Reader A) (f : A → Reader B) (source : List ℕ) {position : ℕ}
      → m source position ≡ panic
      → (m >>= f) source position ≡ panic
  >>=-eq_panic m f source e = rw (e, ◌>>=◌)

  pub Reads->>= :
      {m : Reader A} (f : A → Reader B) {bs cs : List ℕ} {a : A} {b : B}
      → Reads m bs a
      → Reads (f a) cs b
      → Reads (m >>= f) (bs ++ cs) b
  Reads->>= {m} f {bs} {cs} {a} {b} hm hf = record {
    run = λ source rest position e h.
        let e' : drop position source ≡ bs ++ (cs ++ rest) = e ∙ append_assoc bs cs rest in
        let (e'', h'') = behind source bs (cs ++ rest) position e' h in
        rw (hm.run source (cs ++ rest) position e' h, ◌>>=◌)
          (hf.run source rest (position + length bs) e'' h''
            ∙ ap (λ (n : ℕ). ok (b, n)) (omega (arith, length-append bs cs)));
  }

module _ {ℓ} {A : Type ℓ} where
  pub Reads-done : (a : A) → Reads (done a) [] a
  Reads-done a = record {
    run = λ source rest position e h. ap (λ (n : ℕ). ok (a, n)) (omega arith);
  }

  -- The last step of a read that gives a value computed from what was read.
  pub Reads->>=_done {κ} :
      {B : Type κ} {m : Reader A} (f : A → B) {bs : List ℕ} {a : A}
      → Reads m bs a
      → Reads (m >>= λ x. done (f x)) bs (f a)
  Reads->>=_done {m} f {bs} {a} hm = record {
    run = λ source rest position e h. rw (hm.run source rest position e h, ◌>>=◌);
  }

  pub Reads-unwrap_read :
      {m : Reader A} {bs : List ℕ} {a : A} → Reads m bs a → Reads (unwrap_read m) bs a
  Reads-unwrap_read {m} {bs} {a} hm = record {
    run = λ source rest position e h. rw (hm.run source rest position e h, unwrap_read);
  }

pub Reads-read_u8 : (b : ℕ) → Reads read_u8 (b ∷ []) b
unfolding read_u8
Reads-read_u8 b = record { run = λ source rest position e h. rw (e, read_u8) }

pub Reads-read_exact : (n : ℕ) (bs : List ℕ) → length bs ≡ n → Reads (read_exact n) bs bs
unfolding read_exact
Reads-read_exact n bs l = record {
  run = λ source rest position e h.
      rw
        (
          e,
          le→leb n (length (bs ++ rest)) (omega (arith, length-append bs rest)),
          take-length_append n bs rest l,
        )
        (ap (λ (k : ℕ). ok (bs, k)) (omega arith));
}

pub Reads-read_slice : (n : ℕ) (bs : List ℕ) → length bs ≡ n → Reads (read_slice n) bs bs
unfolding read_slice
Reads-read_slice n bs l = record {
  run = λ source rest position e h.
      rw
        (
          le→leb (position + n) (length source) (omega (arith, behind source bs rest position e h)),
          e,
          take-length_append n bs rest l,
        )
        (ap (λ (k : ℕ). ok (bs, k)) (omega arith));
}

-- A read of `width` bytes, converted.
Reads-convert :
    (width : ℕ) (get : List ℕ → ℕ) (bs : List ℕ) (n : ℕ)
    → length bs ≡ width
    → get bs ≡ n
    → Reads (read_exact width >>= λ cs. done (get cs)) bs n
Reads-convert width get bs n l g = record {
  run = λ source rest position e h.
      rw ((Reads-read_exact width bs l).run source rest position e h, ◌>>=◌, g);
}

module _ (b : ByteOrder) (laws : IsByteOrder b) where
  pub Reads-u16_be : (n : ℕ) → n < 2 ^ 16 → Reads (read_u16_be b) (b.put_u16_be n) n
  unfolding read_u16_be
  Reads-u16_be n h =
      let (l, g) = laws.u16_be n h in Reads-convert 2 b.get_u16_be (b.put_u16_be n) n l g

  pub Reads-u32_be : (n : ℕ) → n < 2 ^ 32 → Reads (read_u32_be b) (b.put_u32_be n) n
  unfolding read_u32_be
  Reads-u32_be n h =
      let (l, g) = laws.u32_be n h in Reads-convert 4 b.get_u32_be (b.put_u32_be n) n l g

  -- A number that fits is written, in three bytes, and read back.
  pub Reads-u24_le :
      (n : ℕ)
      → n < 2 ^ 24
      → (bs : List ℕ) × (b.put_u24_le n ≡ some bs) × (length bs ≡ 3) × Reads (read_u24_le b) bs n
  unfolding read_u24_le
  Reads-u24_le n h =
      let (bs, e, l, g) = laws.u24_le n h in (bs, e, l, Reads-convert 3 b.get_u24_le bs n l g)
