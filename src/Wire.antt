-- ===== src/Wire.antt =====
-- What internal/ and protocol/ use of the crate `byteorder`, and the cursor they read through.
-- `std::io::Cursor` over a slice is the slice and a position; a read takes both and moves the
-- position. `byteorder` is an argument of each definition that uses it. A `u8` is its own byte.
pub mod Reads
pub mod Cuts
pub mod Ends
pub mod Reference
use netrex_rak_net.Prelude.{
  ℕ, zero, suc, ◌+◌, ◌*◌, ◌^◌, ◌<◌, ◌≤◌, ◌≡◌, Option, some, none, List, [], ◌∷◌, ◌++◌, length, leb,
  take, drop, if◌then◌else◌, Result, ok, err, panic, stuck, io_error, All,
}

-- The conversions of `byteorder` between a number and its bytes. Those of 24 bits panic, `none`,
-- on a number that does not fit.
pub record ByteOrder : Type 0 where
  pub put_u16_be : ℕ → List ℕ
  pub get_u16_be : List ℕ → ℕ
  pub put_u24_le : ℕ → Option (List ℕ)
  pub get_u24_le : List ℕ → ℕ
  pub put_u32_be : ℕ → List ℕ
  pub get_u32_be : List ℕ → ℕ
  pub put_i16_be : ℕ → List ℕ
  pub put_i64_be : ℕ → List ℕ

-- `put` writes a number below `bound` in `width` bytes, which `get` reads back.
abbrev pub Converts : ℕ → ℕ → (ℕ → List ℕ) → (List ℕ → ℕ) → Type 0
Converts width bound put get = (n : ℕ) → n < bound → (length (put n) ≡ width) × (get (put n) ≡ n)

-- What the crate's documentation says of the conversions.
pub record IsByteOrder (b : ByteOrder) : Type 0 where
  pub u16_be : Converts 2 (2 ^ 16) b.put_u16_be b.get_u16_be
  pub u24_le :
      (n : ℕ)
      → n < 2 ^ 24
      → (bs : List ℕ) × (b.put_u24_le n ≡ some bs) × (length bs ≡ 3) × (b.get_u24_le bs ≡ n)
  pub u24_width : (n : ℕ) (bs : List ℕ) → b.put_u24_le n ≡ some bs → length bs ≡ 3
  pub u32_be : Converts 4 (2 ^ 32) b.put_u32_be b.get_u32_be

-- A read from a source at a position, with the new position.
abbrev pub Reader {ℓ} : Type ℓ → Type ℓ
Reader A = List ℕ → ℕ → Result (A × ℕ)

infixl 5 ◌>>=◌ ◌>>◌
abbrev pub ◌>>=◌ {ℓ κ} : {A : Type ℓ} {B : Type κ} → Reader A → (A → Reader B) → Reader B
◌>>=◌ m f source position = elim (m source position) [
  | ok (a, position') ↦ f a source position'
  | err e ↦ err e
  | panic ↦ panic
  | stuck ↦ stuck
]

abbrev pub ◌>>◌ {ℓ κ} : {A : Type ℓ} {B : Type κ} → Reader A → Reader B → Reader B
m >> k = m >>= λ _. k

abbrev pub done {ℓ} : {A : Type ℓ} → A → Reader A
done a source position = ok (a, position)

-- `.unwrap()` on the result of a read.
abbrev pub unwrap_read {ℓ} : {A : Type ℓ} → Reader A → Reader A
unwrap_read m source position = elim (m source position) [
  | ok r ↦ ok r
  | err e ↦ panic
  | panic ↦ panic
  | stuck ↦ stuck
]

-- `read_exact` of a buffer of `n` bytes.
unfoldable pub read_exact : ℕ → Reader (List ℕ)
read_exact n source position =
    if leb n (length (drop position source))
    then ok (take n (drop position source), position + n)
    else err io_error

unfoldable pub read_u8 : Reader ℕ
read_u8 source position = elim (drop position source) [
  | [] ↦ err io_error
  | b ∷ _ ↦ ok (b, position + 1)
]

module _ (b : ByteOrder) where
  unfoldable pub read_u16_be : Reader ℕ
  read_u16_be = do bs ← read_exact 2; done (b.get_u16_be bs)

  unfoldable pub read_u24_le : Reader ℕ
  read_u24_le = do bs ← read_exact 3; done (b.get_u24_le bs)

  unfoldable pub read_u32_be : Reader ℕ
  read_u32_be = do bs ← read_exact 4; done (b.get_u32_be bs)

-- `&source[position..position + n]`, which panics where it leaves the source.
unfoldable pub read_slice : ℕ → Reader (List ℕ)
read_slice n source position =
    if leb (position + n) (length source)
    then ok (take n (drop position source), position + n)
    else panic
