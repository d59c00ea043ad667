-- ===== src/Examples/Receives.antt =====
-- Fragments that arrive out of order, and one that comes too late.
use mathlib.Core.List.{Permᴰ, flatten}
use netrex_rak_net.Prelude.{ℕ, ◌≡◌, refl, List, [], ◌∷◌, none, some, ok, arith}
use netrex_rak_net.Prelude.Table.{insert}
use netrex_rak_net.Address.{Resolver}
use netrex_rak_net.Wire.Reference.{reference}
use netrex_rak_net.Packet.Codecs.Reference.{reference_codecs}
use netrex_rak_net.Server.{v10}
use netrex_rak_net.Connection
use netrex_rak_net.Connection.{Connection}
use netrex_rak_net.Reliability.{reliable}
use netrex_rak_net.Meta
use netrex_rak_net.Frame.{Frame, init, partition, partition_loop, set_size, fragment}
use netrex_rak_net.Receive.{handle_frame, receive_frame}
use netrex_rak_net.Receive.Parts.{part}
use netrex_rak_net.Receive.Reassembled.{
  arrive, with, noted, noted_one, whole, reassembled_in_any_order,
}
use netrex_rak_net.Receive.Stale.{stale_fragment_repeats}

-- No name is known, and every address has the same text.
abbrev pub no_names : Resolver
no_names = record {
  to_socket_addrs = λ name. none;
  ip_to_string = λ ip. "127.0.0.1";
  port_to_string = λ port. "19132";
}

abbrev pub fresh : Connection
fresh = Connection.new "127.0.0.1:19132" 0 10 7 "19132" v10

-- A fragment as it is read: reliable, under a message index.
abbrev piece : ℕ → ℕ → List ℕ → Frame
piece message index body = record init {
  reliability = reliable;
  reliable_index = some message;
  fragment_meta = some (record { size = 2; id = 5; index = index });
  body = body;
}

abbrev front_piece : Frame
front_piece = piece 1 0 (1 ∷ 2 ∷ [])

abbrev back_piece : Frame
back_piece = piece 2 1 (3 ∷ [])

abbrev swapped : List (ℕ × Frame)
swapped = (4, back_piece) ∷ (9, front_piece) ∷ []

split_three :
    partition (1 ∷ 2 ∷ 3 ∷ []) 5 2
    ≡ ok (
        record init {
          body = 1 ∷ 2 ∷ [];
          fragment_meta = some (record { size = 2; id = 5; index = 0 });
        }
        ∷ record init {
          body = 3 ∷ [];
          fragment_meta = some (record { size = 2; id = 5; index = 1 });
        }
        ∷ [])
unfolding partition partition_loop set_size fragment
split_three = refl

reassembled_in_any_order_example :
    arrive reference reference_codecs no_names (λ bytes. bytes) 20 fresh swapped
    ≡ handle_frame reference reference_codecs no_names
        (λ bytes. bytes)
        20
        (with fresh
          (noted swapped fresh.rakhandler.ack_counts)
          (insert 5 (part back_piece ∷ part front_piece ∷ []) fresh.rakhandler.fragmented_frames))
        (whole front_piece (1 ∷ 2 ∷ 3 ∷ []))
unfolding Connection.new Meta.new
reassembled_in_any_order_example =
    reassembled_in_any_order reference reference_codecs no_names (λ bytes. bytes) 20 fresh
      (1 ∷ 2 ∷ 3 ∷ []) 5 2 _ (front_piece ∷ back_piece ∷ []) ((4, back_piece) ∷ []) (9, front_piece)
      (omega arith) (omega arith) split_three (refl, refl, (refl, refl, tt)) (Permᴰ.swap refl refl)
      refl

abbrev late : Frame
late = piece 3 0 (8 ∷ 8 ∷ [])

abbrev complete : Connection
complete = with fresh [] ((5, part back_piece ∷ part front_piece ∷ []) ∷ [])

stale_fragment_repeats_example :
    receive_frame reference reference_codecs no_names (λ bytes. bytes) 20 complete 11 late
    ≡ handle_frame reference reference_codecs no_names
        (λ bytes. bytes)
        20
        (with complete (noted_one (11, late) []) (
          insert 5 (part back_piece ∷ part front_piece ∷ []) complete.rakhandler.fragmented_frames))
        (whole late (1 ∷ 2 ∷ 3 ∷ []))
unfolding flatten
stale_fragment_repeats_example =
    stale_fragment_repeats reference reference_codecs no_names (λ bytes. bytes) 20 complete 2 5 11
      late ((1 ∷ 2 ∷ []) ∷ (3 ∷ []) ∷ []) (front_piece ∷ back_piece ∷ [])
      (back_piece ∷ front_piece ∷ []) (refl, refl, (refl, refl, tt)) refl (Permᴰ.swap refl refl)
      refl refl
