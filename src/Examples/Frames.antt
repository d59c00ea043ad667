-- ===== src/Examples/Frames.antt =====
-- The frames and datagrams at concrete inputs.
use mathlib.Core.List.{flatten}
use netrex_rak_net.Prelude.{
  ℕ, ◌+◌, ◌-◌, ◌%◌, ◌≡◌, ◌≢◌, refl, some, List, [], ◌∷◌, ◌++◌, length, arith, ok, panic, stuck,
}
use netrex_rak_net.Wire.Reference.{reference, reference-IsByteOrder}
use netrex_rak_net.Reliability.{
  unreliable, reliable_seq, to_flags, is_reliable, is_sequenced, is_sequenced_or_ordered,
}
use netrex_rak_net.Frame
use netrex_rak_net.Frame.{Frame, init, partition, partition_loop}
use netrex_rak_net.Frame.Codec.{IsFrame, compose_frame-parse}
use netrex_rak_net.Ack.Nack.{count_up}
use netrex_rak_net.Frame.Wraps.{cut, compose_frame_wraps}
use netrex_rak_net.Frame.Overrun.{compose_overrun}
use netrex_rak_net.Frame.Partition.{labelled, IsCut, partition_lem}
use netrex_rak_net.FramePacket
use netrex_rak_net.FramePacket.{FramePacket}
use netrex_rak_net.FramePacket.Codec.{compose_packet-parse}
use netrex_rak_net.FramePacket.Total.{compose-ne-stuck}

-- A fragment of a sequenced packet.
abbrev sequenced : Frame
sequenced = record {
  flags = 0x90;
  size = 2;
  reliable_index = some 300;
  sequence_index = some 5;
  order_index = some 6;
  order_channel = some 0;
  fragment_meta = some (record { size = 4; id = 1; index = 3 });
  reliability = reliable_seq;
  body = 8 ∷ 9 ∷ [];
}

sequenced-IsFrame : IsFrame sequenced
unfolding Frame.flags_of to_flags is_reliable is_sequenced is_sequenced_or_ordered
sequenced-IsFrame = record {
  flagged = refl;
  sized = refl;
  body_fits = omega arith;
  reliable_fits = omega arith;
  sequence_fits = omega arith;
  order_fits = omega arith;
  channel_fits = tt;
  meta_fits = (omega arith, omega arith, omega arith);
}

compose_frame-parse_example :
    (bs : List ℕ) × (Frame.parse reference sequenced ≡ ok bs)
    × (Frame.compose reference (1 ∷ 2 ∷ (bs ++ (7 ∷ []))) 2 ≡ ok (sequenced, 2 + length bs))
compose_frame-parse_example =
    compose_frame-parse reference reference-IsByteOrder sequenced (1 ∷ 2 ∷ []) (7 ∷ [])
      sequenced-IsFrame

-- An unreliable frame.
abbrev plain : Frame
plain = record init { size = 3; reliability = unreliable; body = 1 ∷ 2 ∷ 3 ∷ [] }

plain-IsFrame : IsFrame plain
unfolding Frame.flags_of to_flags is_reliable is_sequenced is_sequenced_or_ordered
plain-IsFrame = record {
  flagged = refl;
  sized = refl;
  body_fits = omega arith;
  reliable_fits = tt;
  sequence_fits = tt;
  order_fits = tt;
  channel_fits = tt;
  meta_fits = tt;
}

-- A frame whose body is two bytes longer than 8 KiB: two of them are read.
abbrev long : Frame
long = record plain { body = count_up 0 8194 }

compose_frame_wraps_example :
    (bs : List ℕ) × (end : ℕ) × (Frame.parse reference long ≡ ok bs)
    × (Frame.compose reference (9 ∷ (bs ++ [])) 1 ≡ ok (cut long, end))
    × (end + (length (count_up 0 8194) - length (count_up 0 8194) % 8192) ≡ 1 + length bs)
unfolding Frame.flags_of
compose_frame_wraps_example =
    compose_frame_wraps reference reference-IsByteOrder long (9 ∷ []) [] (record {
      flagged = plain-IsFrame.flagged;
      sized = refl;
      body_fits = omega arith;
      reliable_fits = plain-IsFrame.reliable_fits;
      sequence_fits = plain-IsFrame.sequence_fits;
      order_fits = plain-IsFrame.order_fits;
      channel_fits = plain-IsFrame.channel_fits;
      meta_fits = tt;
    })

plain-written : Frame.parse_head reference plain ≡ ok (0 ∷ 0 ∷ 24 ∷ [])
unfolding Frame.parse_head Frame.flags_of reference to_flags is_reliable is_sequenced
    is_sequenced_or_ordered
plain-written = refl

compose_overrun_example : Frame.compose reference (0 ∷ 0 ∷ 24 ∷ 1 ∷ 2 ∷ []) 0 ≡ panic
compose_overrun_example =
    compose_overrun reference plain (0 ∷ 0 ∷ 24 ∷ []) (1 ∷ 2 ∷ []) reference-IsByteOrder
      plain-IsFrame plain-written (omega arith)

abbrev carried : FramePacket
carried = record FramePacket.new { sequence = 77; frames = sequenced ∷ plain ∷ [] }

compose_packet-parse_example :
    (bs : List ℕ) × (FramePacket.parse reference carried ≡ ok bs)
    × (FramePacket.compose reference bs 0 ≡ ok carried)
compose_packet-parse_example =
    compose_packet-parse reference reference-IsByteOrder carried (omega arith)
      (sequenced-IsFrame, (plain-IsFrame, tt))

compose-ne-stuck_example : FramePacket.compose reference (0x84 ∷ 1 ∷ 0 ∷ 0 ∷ 0x60 ∷ []) 0 ≢ stuck
compose-ne-stuck_example = compose-ne-stuck reference (0x84 ∷ 1 ∷ 0 ∷ 0 ∷ 0x60 ∷ []) 0

partition_example :
    (chunks : List (List ℕ)) × (partition (1 ∷ 2 ∷ 3 ∷ []) 5 2
      ≡ ok (labelled (length chunks) 5 0 chunks))
    × (flatten chunks ≡ 1 ∷ 2 ∷ 3 ∷ [])
    × IsCut 2 chunks
partition_example = partition_lem (1 ∷ 2 ∷ 3 ∷ []) 5 2 (omega arith) (omega arith)
