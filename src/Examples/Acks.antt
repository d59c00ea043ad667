-- ===== src/Examples/Acks.antt =====
-- The packets of ACK and NACK records at concrete inputs.
use netrex_rak_net.Prelude.{ℕ, ◌+◌, ◌≡◌, refl, false, List, [], ◌∷◌, ◌++◌, length, arith, ok, panic}
use netrex_rak_net.Wire.Reference.{reference, reference-IsByteOrder}
use netrex_rak_net.Ack.{Ack, single, range, parse, compose, from_missing}
use netrex_rak_net.Ack.Codec.{IsAck, compose_ack-parse, compose_truncated}
use netrex_rak_net.Ack.Missing.{covers, from_missing_loses_last}

abbrev acked : Ack
acked = record {
  id = 0xc0;
  count = 2;
  records = single (record { sequence = 258 }) ∷ range (record { start = 3; end = 70000 }) ∷ [];
}

acked-IsAck : IsAck acked
acked-IsAck = record {
  counted = refl;
  count_fits = omega arith;
  records_fit = (omega arith, ((omega arith, omega arith), tt));
}

compose_ack-parse_example :
    (bs : List ℕ) × (parse reference acked ≡ ok bs)
    × (compose reference (bs ++ (9 ∷ 9 ∷ [])) 4 ≡ ok (acked, 4 + length bs))
compose_ack-parse_example =
    compose_ack-parse reference reference-IsByteOrder acked (9 ∷ 9 ∷ []) 4 acked-IsAck

abbrev front : List ℕ
front = 0xc0 ∷ 0 ∷ 2 ∷ 1 ∷ 2 ∷ 1 ∷ []

abbrev back : List ℕ
back = 0 ∷ 3 ∷ 0 ∷ 0 ∷ 112 ∷ 17 ∷ 1 ∷ []

acked-written : parse reference acked ≡ ok (front ++ (0 ∷ back))
unfolding parse reference
acked-written = refl

compose_truncated_example : compose reference front 0 ≡ panic
compose_truncated_example =
    compose_truncated reference reference-IsByteOrder acked front back 0 0 acked-IsAck acked-written

from_missing_loses_last_example :
    (a : Ack) × (from_missing (3 ∷ 4 ∷ 9 ∷ []) ≡ ok a) × (covers a.records 9 ≡ false)
from_missing_loses_last_example =
    from_missing_loses_last (3 ∷ 4 ∷ 9 ∷ []) 9
      (omega arith, omega arith, (omega arith, omega arith, (omega arith, omega arith, refl)))
      (omega arith)
