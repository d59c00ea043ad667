-- ===== src/Reliability.antt =====
-- src/internal/frame/reliability/mod.rs: the eight reliabilities and their three bits of a frame's flags.
pub mod Kinds
use Prim.Native.Nat.{bit_and}
use netrex_rak_net.Prelude.{ℕ, ◌/◌, Bool, true, false, ◌==◌, if◌then◌else◌}

pub data Reliability : Type 0 where
  unreliable unreliable_seq reliable reliable_ord reliable_seq : Reliability
  unreliable_ack reliable_ack reliable_ord_ack : Reliability

-- `>> 5` is a division by 32.
unfoldable pub from_flags : ℕ → Reliability
from_flags flags =
    let bits : ℕ = bit_and flags 224 / 32 in
    if bits == 0
    then unreliable
    else if bits == 1
    then unreliable_seq
    else if bits == 2
    then reliable
    else if bits == 3
    then reliable_ord
    else if bits == 4
    then reliable_seq
    else if bits == 5
    then unreliable_ack
    else if bits == 6
    then reliable_ack
    else if bits == 7
    then reliable_ord_ack
    else unreliable

unfoldable pub to_flags : Reliability → ℕ
to_flags unreliable = 0
to_flags unreliable_seq = 32
to_flags reliable = 64
to_flags reliable_ord = 96
to_flags reliable_seq = 128
to_flags unreliable_ack = 160
to_flags reliable_ack = 192
to_flags reliable_ord_ack = 224

unfoldable pub is_ordered : Reliability → Bool
is_ordered unreliable_seq = true
is_ordered reliable_ord = true
is_ordered reliable_ord_ack = true
is_ordered _ = false

unfoldable pub is_reliable : Reliability → Bool
is_reliable reliable = true
is_reliable reliable_ord = true
is_reliable reliable_seq = true
is_reliable reliable_ord_ack = true
is_reliable _ = false

unfoldable pub is_unreliable : Reliability → Bool
is_unreliable unreliable = true
is_unreliable unreliable_seq = true
is_unreliable unreliable_ack = true
is_unreliable _ = false

unfoldable pub is_sequenced : Reliability → Bool
is_sequenced unreliable_seq = true
is_sequenced reliable_seq = true
is_sequenced _ = false

unfoldable pub is_sequenced_or_ordered : Reliability → Bool
is_sequenced_or_ordered unreliable_seq = true
is_sequenced_or_ordered reliable_seq = true
is_sequenced_or_ordered reliable_ord = true
is_sequenced_or_ordered reliable_ord_ack = true
is_sequenced_or_ordered _ = false

unfoldable pub is_ack : Reliability → Bool
is_ack unreliable_ack = true
is_ack reliable_ack = true
is_ack reliable_ord_ack = true
is_ack _ = false
