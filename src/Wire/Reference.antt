-- ===== src/Wire/Reference.antt =====
-- A `ByteOrder` written out, to which the laws apply.
use netrex_rak_net.Prelude.{
  ℕ, ◌+◌, ◌*◌, ◌/◌, ◌%◌, ◌^◌, refl, some, none, Option, List, [], ◌∷◌, ◌++◌, arith, ltb, lt→ltb,
  if◌then◌else◌,
}
use netrex_rak_net.Wire.{ByteOrder, IsByteOrder}

-- The number whose bytes, the highest first, are the list.
from_be : ℕ → List ℕ → ℕ
from_be acc [] = acc
from_be acc (b ∷ bs) = from_be (acc * 256 + b) bs

from_le : List ℕ → ℕ
from_le [] = 0
from_le (b ∷ bs) = b + 256 * from_le bs

to_u16_be : ℕ → List ℕ
to_u16_be n = n / 256 ∷ n % 256 ∷ []

to_u24_le : ℕ → Option (List ℕ)
to_u24_le n = if ltb n (2 ^ 24) then some (n % 256 ∷ n / 256 % 256 ∷ n / 65536 ∷ []) else none

to_u32_be : ℕ → List ℕ
to_u32_be n = n / 16777216 ∷ n / 65536 % 256 ∷ n / 256 % 256 ∷ n % 256 ∷ []

unfoldable pub reference : ByteOrder
unfolding from_be from_le to_u16_be to_u24_le to_u32_be
reference = record {
  put_u16_be = to_u16_be;
  get_u16_be = from_be 0;
  put_u24_le = to_u24_le;
  get_u24_le = from_le;
  put_u32_be = to_u32_be;
  get_u32_be = from_be 0;
  put_i16_be = to_u16_be;
  put_i64_be = λ n. to_u32_be (n / 4294967296) ++ to_u32_be (n % 4294967296);
}

pub reference-IsByteOrder : IsByteOrder reference
unfolding reference from_be from_le to_u16_be to_u24_le to_u32_be
reference-IsByteOrder = record {
  u16_be = λ n h. (refl, omega arith);
  u24_le = λ n h.
      (n % 256 ∷ n / 256 % 256 ∷ n / 65536 ∷ [], rw (lt→ltb n (2 ^ 24) h), refl, omega arith);
  u24_width = λ n bs e. ground arith;
  u32_be = λ n h. (refl, omega arith);
}
