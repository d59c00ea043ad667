-- ===== src/Wire/Ends.antt =====
-- When a read always ends, and takes a number of bytes at least if it succeeds.
use netrex_rak_net.Prelude.{ℕ, ◌+◌, ◌≤◌, ◌≡◌, ◌≢◌, refl, List, Result, ok, err, panic, stuck, arith}
use netrex_rak_net.Wire.{
  ByteOrder, Reader, ◌>>=◌, done, read_exact, read_u8, read_u16_be, read_u24_le, read_u32_be,
  read_slice,
}

pub record Ends {ℓ} {A : Type ℓ} (m : Reader A) (k : ℕ) : Type ℓ where
  pub ends : (source : List ℕ) (position : ℕ) → m source position ≢ stuck
  pub takes :
      (source : List ℕ) (position position' : ℕ) (a : A)
      → m source position ≡ ok (a, position')
      → position + k ≤ position'

module _ {ℓ κ} {A : Type ℓ} {B : Type κ} where
  -- The outcomes of the first read, in the second.
  bind-Ends :
      (r : Result (A × ℕ)) (f : A → Reader B) (source : List ℕ) (k j position : ℕ)
      → r ≢ stuck
      → ((a : A) → Ends (f a) j)
      → (elim r [ ok (a, p) ↦ f a source p | err e ↦ err e | panic ↦ panic | stuck ↦ stuck ])
        ≢ stuck
  bind-Ends (ok (a, p)) f source k j position ne e = (e a).ends source p
  bind-Ends (err x) f source k j position ne e = λ h. cc
  bind-Ends panic f source k j position ne e = λ h. cc
  bind-Ends stuck f source k j position ne e = absurd (ne refl)

  bind_takes :
      (r : Result (A × ℕ)) (f : A → Reader B) (source : List ℕ) (k j position q : ℕ) (c : B)
      → ((a : A) (p : ℕ) → r ≡ ok (a, p) → position + k ≤ p)
      → ((a : A) → Ends (f a) j)
      → (elim r [ ok (a, p) ↦ f a source p | err e ↦ err e | panic ↦ panic | stuck ↦ stuck ])
        ≡ ok (c, q)
      → position + (k + j) ≤ q
  bind_takes (ok (a, p)) f source k j position q c t e h =
      omega (arith, t a p refl, (e a).takes source p q c h)
  bind_takes (err x) f source k j position q c t e h = cc
  bind_takes panic f source k j position q c t e h = cc
  bind_takes stuck f source k j position q c t e h = cc

  pub Ends->>= :
      {m : Reader A} (f : A → Reader B) {k j : ℕ}
      → Ends m k
      → ((a : A) → Ends (f a) j)
      → Ends (m >>= f) (k + j)
  Ends->>= {m} f {k} {j} e e' = record {
    ends = λ source position.
        bind-Ends (m source position) f source k j position (e.ends source position) e';
    takes = λ source position q c.
        bind_takes (m source position) f source k j position q c
          (λ a p h. e.takes source position p a h) e';
  }

module _ {ℓ} {A : Type ℓ} where
  pub Ends-done : (a : A) → Ends (done a) 0
  Ends-done a = record { ends = λ s p h. cc; takes = λ s p q c h. ground arith }

  pub Ends-le : {m : Reader A} {k : ℕ} (j : ℕ) → j ≤ k → Ends m k → Ends m j
  Ends-le {m} {k} j h e = record {
    ends = e.ends;
    takes = λ s p q a r. omega (arith, e.takes s p q a r);
  }

pub Ends-read_u8 : Ends read_u8 1
unfolding read_u8
Ends-read_u8 = record { ends = λ s p h. ground arith; takes = λ s p q a h. ground arith }

pub Ends-read_exact : (n : ℕ) → Ends (read_exact n) n
unfolding read_exact
Ends-read_exact n = record { ends = λ s p h. ground arith; takes = λ s p q a h. ground arith }

pub Ends-read_slice : (n : ℕ) → Ends (read_slice n) n
unfolding read_slice
Ends-read_slice n = record { ends = λ s p h. ground arith; takes = λ s p q a h. ground arith }

module _ (b : ByteOrder) where
  pub Ends-u16_be : Ends (read_u16_be b) 2
  unfolding read_u16_be
  Ends-u16_be = Ends->>= _ (Ends-read_exact 2) (λ bs. Ends-done (b.get_u16_be bs))

  pub Ends-u24_le : Ends (read_u24_le b) 3
  unfolding read_u24_le
  Ends-u24_le = Ends->>= _ (Ends-read_exact 3) (λ bs. Ends-done (b.get_u24_le bs))

  pub Ends-u32_be : Ends (read_u32_be b) 4
  unfolding read_u32_be
  Ends-u32_be = Ends->>= _ (Ends-read_exact 4) (λ bs. Ends-done (b.get_u32_be bs))
