-- ===== src/Decimal/Digits.antt =====
-- The print of a number has no other characters than digits.
use Prim.Native.Char.{code}
use Prim.Native.String.{String, [], ◌∷◌}
use native.Mathlib.Decide.{dec_lt}
use netrex_rak_net.Prelude.{ℕ, zero, suc, ◌+◌, ◌%◌, ◌/◌, ◌<◌, ◌≤◌, arith}
use netrex_rak_net.Decimal.{
  digit, digit-code, print_loop, print_loop_last, print_loop_next, to_string,
}

-- Every character is a digit.
unfoldable pub Digits : String → Type 0
Digits [] = Unit
Digits (c ∷ s) = (48 ≤ code c) × (code c ≤ 57) × Digits s

digit-Digits : (d : ℕ) (s : String) → d < 10 → Digits s → Digits (digit d ∷ s)
unfolding Digits
digit-Digits d s h is = (omega (arith, digit-code d h), omega (arith, digit-code d h), is)

print_loop-Digits : (fuel n : ℕ) (s : String) → Digits s → Digits (print_loop fuel n s)
print_loop-Digits zero n s h = unfold print_loop in h
print_loop-Digits (suc fuel) n s h = elim (dec_lt n 10) [
  | yes small ↦ rw (print_loop_last fuel n s small) (digit-Digits n s small h)
  | no large ↦ rw (print_loop_next fuel n s (omega arith)) (
      print_loop-Digits fuel (n / 10) (digit (n % 10) ∷ s)
        (digit-Digits (n % 10) s (omega arith) h))
]

pub to_string-Digits : (n : ℕ) → Digits (to_string n)
unfolding to_string Digits
to_string-Digits n = print_loop-Digits (n + 1) n [] tt
