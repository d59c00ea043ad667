-- ===== src/Reliability/Kinds.antt =====
-- The flags name the reliability, and what the tests say of it.
use Prim.Native.Nat.{bit_and}
use netrex_rak_net.Prelude.{
  if◌then◌else◌, ℕ, zero, suc, ◌+◌, ◌<◌, ◌≡◌, ◌↔◌, refl, Bool, true, false, ◌||◌, ◌&&◌, ◌==◌, arith,
}
use netrex_rak_net.Reliability.{
  Reliability, unreliable, reliable_ack, from_flags, to_flags, is_ordered, is_reliable,
  is_unreliable, is_sequenced, is_sequenced_or_ordered,
}

-- The upper three bits of the flags are those of the reliability, for every lower part below a bound.
kept_below : Reliability → ℕ → Bool
kept_below r zero = true
kept_below r (suc low) =
    if bit_and (to_flags r + low) 224 == to_flags r then kept_below r low else false

kept_below-lower :
    (r : Reliability) (bound low : ℕ)
    → low < bound
    → kept_below r bound ≡ true
    → bit_and (to_flags r + low) 224 ≡ to_flags r
unfolding kept_below
kept_below-lower r zero low h kept = absurd (omega arith)
kept_below-lower r (suc bound) low h kept = ground (arith, kept_below-lower r bound low)

upper_bits_table : (r : Reliability) → kept_below r 32 ≡ true
unfolding to_flags kept_below
upper_bits_table unreliable = refl
upper_bits_table _ = refl

upper_bits : (low : ℕ) (r : Reliability) → low < 32 → bit_and (to_flags r + low) 224 ≡ to_flags r
upper_bits low r h = kept_below-lower r 32 low h (upper_bits_table r)

-- `from_flags` reads the reliability that `to_flags` wrote, whatever the five lower bits of the flags.
pub from_flags-to_flags : (r : Reliability) (low : ℕ) → low < 32 → from_flags (to_flags r + low) ≡ r
unfolding from_flags to_flags
from_flags-to_flags unreliable low h = ground (arith, upper_bits low unreliable h)
from_flags-to_flags r low h = ground (arith, upper_bits low r h)

-- `is_sequenced_or_ordered` is what it says. No reliability is both reliable and unreliable, and the
-- one that is neither is `reliable_ack`.
pub kind_tests :
    (r : Reliability)
    → (is_sequenced_or_ordered r ≡ (is_sequenced r || is_ordered r))
      × ((is_reliable r && is_unreliable r) ≡ false)
      × (((is_reliable r || is_unreliable r) ≡ false) ↔ (r ≡ reliable_ack))
unfolding is_sequenced_or_ordered is_sequenced is_ordered is_reliable is_unreliable
kind_tests unreliable = (refl, refl, (λ e. cc, λ e. cc))
kind_tests reliable_ack = (refl, refl, (λ e. refl, λ e. refl))
kind_tests _ = (refl, refl, (λ e. cc, λ e. cc))
