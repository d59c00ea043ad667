-- ===== src/Receive/Stale.antt =====
-- The parts of a frame stay where they are after it was made: what a later fragment of its id does.
use mathlib.Core.List.{Permᴰ, flatten}
use netrex_rak_net.Prelude.{
  ℕ, ◌≡◌, refl, ◌∙◌, true, List, map, length, ◌==◌, some, arith, Result, length-map,
}
use netrex_rak_net.Prelude.Table.{get, insert}
use netrex_rak_net.Frame.{Frame}
use netrex_rak_net.Connection.{Connection}
use netrex_rak_net.Address.{Resolver}
use netrex_rak_net.Wire.{ByteOrder}
use netrex_rak_net.Packet.{BinaryUtils}
use netrex_rak_net.Receive.{receive_frame, handle_frame, collect}
use netrex_rak_net.Receive.Parts.{
  part, IsPart, AreParts, AreParts-length, Perm-length, reassemble-AreParts,
}
use netrex_rak_net.Receive.Reassembled.{with, noted_one, whole, receive_frame-collect}

module _ (b : ByteOrder) (u : BinaryUtils) (r : Resolver)
    (fparse : Result (List ℕ) → Result (List ℕ)) (now : ℕ) where
  -- All parts of a frame are kept, in any order. Then a fragment that comes later under the same id and
  -- number of parts, whatever its index and its body, is thrown away, and the old frame is handled
  -- once more, under the reliability and the indexes of the new fragment.
  pub stale_fragment_repeats :
      (c : Connection) (n id q : ℕ) (f : Frame) (chunks : List (List ℕ)) (fs kept : List Frame)
      → AreParts n id 0 chunks fs
      → length chunks ≡ n
      → Permᴰ kept fs
      → get id c.rakhandler.fragmented_frames ≡ some (map part kept)
      → IsPart n id f
      → receive_frame b u r fparse now c q f
        ≡ handle_frame b u r fparse now
            (with c
              (noted_one (q, f) c.rakhandler.ack_counts)
              (insert id (map part kept) c.rakhandler.fragmented_frames))
            (whole f (flatten chunks))
  unfolding collect
  stale_fragment_repeats c n id q f chunks fs kept are count p held is =
      let full : (length (map part kept) == n) ≡ true =
        ground (arith, length-map kept part, Perm-length p, AreParts-length n id 0 chunks fs are) in
      receive_frame-collect b u r fparse now c n id q f c.rakhandler.ack_counts
        c.rakhandler.fragmented_frames is
      ∙ rw (held, full, full, reassemble-AreParts n id 0 chunks fs are p) refl
