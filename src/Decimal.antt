-- ===== src/Decimal.antt =====
-- `ToString` and `FromStr` of the standard library on unsigned numbers.
pub mod Digits
use Prim.Native.Char.{Char, code}
use Prim.Native.String.{String, [], ◌∷◌}
use native.Mathlib.Decide.{dec_lt}
use netrex_rak_net.Prelude.{
  ℕ, zero, suc, ◌+◌, ◌-◌, ◌*◌, ◌/◌, ◌%◌, ◌<◌, ◌≤◌, ◌≡◌, refl, true, false, Option, none, some, ltb,
  leb, ◌==◌, ◌||◌, arith, ap, subst, ◌∙◌, lt→ltb, le→ltb, if◌then◌else◌,
}

-- The character of a digit.
unfoldable pub digit : ℕ → Char
digit zero = "0"
digit (suc zero) = "1"
digit (suc (suc zero)) = "2"
digit (suc (suc (suc zero))) = "3"
digit (suc (suc (suc (suc zero)))) = "4"
digit (suc (suc (suc (suc (suc zero))))) = "5"
digit (suc (suc (suc (suc (suc (suc zero)))))) = "6"
digit (suc (suc (suc (suc (suc (suc (suc zero))))))) = "7"
digit (suc (suc (suc (suc (suc (suc (suc (suc zero)))))))) = "8"
digit _ = "9"

-- The digits of a number in front of a text, the last first. A round leaves a tenth, so the number
-- itself is fuel enough.
unfoldable pub print_loop : ℕ → ℕ → String → String
print_loop zero n s = s
print_loop (suc fuel) n s = elim (ltb n 10) [
  | true ↦ digit (n % 10) ∷ s
  | false ↦ print_loop fuel (n / 10) (digit (n % 10) ∷ s)
]

unfoldable pub to_string : ℕ → String
unfolding print_loop digit
to_string n = print_loop (n + 1) n []

-- The digits of a text behind a number; `none` on another character, or past the greatest value.
scan : ℕ → String → ℕ → Option ℕ
scan max [] n = some n
scan max (c ∷ s) n =
    let d = code c - 48 in
    let rest = scan max s (n * 10 + d) in
    if ltb (code c) 48 || ltb 57 (code c) then none else if leb (n * 10 + d) max then rest else none

-- `parse` of an unsigned number of the given greatest value: a `+` in front of digits is skipped.
unfoldable pub parse_unsigned : ℕ → String → Option ℕ
unfolding scan
parse_unsigned max [] = none
parse_unsigned max (c ∷ []) = scan max (c ∷ []) 0
parse_unsigned max (c ∷ d ∷ s) = if code c == 43 then scan max (d ∷ s) 0 else scan max (c ∷ d ∷ s) 0

digit-code : (d : ℕ) → d < 10 → code (digit d) ≡ d + 48
unfolding digit
digit-code zero h = refl
digit-code (suc zero) h = refl
digit-code (suc (suc zero)) h = refl
digit-code (suc (suc (suc zero))) h = refl
digit-code (suc (suc (suc (suc zero)))) h = refl
digit-code (suc (suc (suc (suc (suc zero))))) h = refl
digit-code (suc (suc (suc (suc (suc (suc zero)))))) h = refl
digit-code (suc (suc (suc (suc (suc (suc (suc zero))))))) h = refl
digit-code (suc (suc (suc (suc (suc (suc (suc (suc zero)))))))) h = refl
digit-code (suc (suc (suc (suc (suc (suc (suc (suc (suc zero))))))))) h = refl
digit-code (suc (suc (suc (suc (suc (suc (suc (suc (suc (suc d)))))))))) h = absurd (omega arith)

scan-digit :
    (max m d : ℕ) (s : String)
    → d < 10
    → m * 10 + d ≤ max
    → scan max (digit d ∷ s) m ≡ scan max s (m * 10 + d)
unfolding scan
scan-digit max m d s small fits =
    let sub : d + 48 - 48 ≡ d = omega arith in rw (digit-code d small, sub) (ground arith)

module _ (fuel n : ℕ) (s : String) where
  print_loop_last : n < 10 → print_loop (suc fuel) n s ≡ digit n ∷ s
  unfolding print_loop
  print_loop_last h =
      let same : n % 10 ≡ n = omega arith in rw (print_loop, lt→ltb n 10 h, same) refl

  print_loop_next :
      10 ≤ n → print_loop (suc fuel) n s ≡ print_loop fuel (n / 10) (digit (n % 10) ∷ s)
  unfolding print_loop
  print_loop_next h = rw (print_loop, le→ltb n 10 h) refl

scan-print_loop :
    (max fuel n : ℕ) (s : String)
    → n < fuel
    → n ≤ max
    → scan max (print_loop fuel n s) 0 ≡ scan max s n
scan-print_loop max zero n s enough fits = absurd (omega arith)
scan-print_loop max (suc fuel) n s enough fits = elim (dec_lt n 10) [
  | yes h ↦
      ap (λ t. scan max t 0) (print_loop_last fuel n s h)
      ∙ (scan-digit max 0 n s h (omega arith) ∙ ap (scan max s) (omega arith))
  | no h ↦
      ap (λ t. scan max t 0) (print_loop_next fuel n s (omega arith))
      ∙ (scan-print_loop max fuel (n / 10) (digit (n % 10) ∷ s) (omega arith) (omega arith)
          ∙ (scan-digit max (n / 10) (n % 10) s (omega arith) (omega arith)
              ∙ ap (scan max s) (omega arith)))
]

-- The first character of a text that is not empty is a digit.
StartsWithDigit : String → Type 0
StartsWithDigit [] = ⊥
StartsWithDigit (c ∷ s) = 48 ≤ code c

digit-StartsWithDigit : (d : ℕ) (s : String) → d < 10 → StartsWithDigit (digit d ∷ s)
unfolding StartsWithDigit
digit-StartsWithDigit d s h = omega (arith, digit-code d h)

print_loop-StartsWithDigit :
    (fuel n : ℕ) (s : String) → StartsWithDigit s → StartsWithDigit (print_loop fuel n s)
print_loop-StartsWithDigit zero n s h = unfold print_loop in h
print_loop-StartsWithDigit (suc fuel) n s h = elim (dec_lt n 10) [
  | yes small ↦ rw (print_loop_last fuel n s small) (digit-StartsWithDigit n s small)
  | no large ↦ rw (print_loop_next fuel n s (omega arith)) (
      print_loop-StartsWithDigit fuel (n / 10) (digit (n % 10) ∷ s)
        (digit-StartsWithDigit (n % 10) s (omega arith)))
]

to_string-StartsWithDigit : (n : ℕ) → StartsWithDigit (to_string n)
unfolding to_string
to_string-StartsWithDigit n =
    let e : suc n ≡ n + 1 = omega arith in
    subst (λ k. StartsWithDigit (print_loop k n [])) e
      (elim (dec_lt n 10) [
        | yes small ↦ rw (print_loop_last n n [] small) (digit-StartsWithDigit n [] small)
        | no large ↦ rw (print_loop_next n n [] (omega arith)) (
            print_loop-StartsWithDigit n (n / 10) (digit (n % 10) ∷ [])
              (digit-StartsWithDigit (n % 10) [] (omega arith)))
      ])

parse_unsigned-scan :
    (max : ℕ) (s : String) → StartsWithDigit s → parse_unsigned max s ≡ scan max s 0
unfolding parse_unsigned StartsWithDigit
parse_unsigned-scan max [] h = absurd h
parse_unsigned-scan max (c ∷ []) h = refl
parse_unsigned-scan max (c ∷ d ∷ s) h = ground arith

-- A number is read back from its print, up to the greatest value.
pub parse-to_string : (max n : ℕ) → n ≤ max → parse_unsigned max (to_string n) ≡ some n
unfolding to_string
parse-to_string max n fits =
    parse_unsigned-scan max (to_string n) (to_string-StartsWithDigit n)
    ∙ (scan-print_loop max (n + 1) n [] (omega arith) fits ∙ unfold scan in refl)

pub to_string_one : to_string 1 ≡ "1"
unfolding to_string print_loop digit
to_string_one = refl
