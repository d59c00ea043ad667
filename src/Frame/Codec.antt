-- ===== src/Frame/Codec.antt =====
-- The bytes of a frame are read back.
use Prim.Native.Nat.{bit_and, bit_or}
use netrex_rak_net.Prelude.{
  ℕ, ◌+◌, ◌*◌, ◌/◌, ◌%◌, ◌^◌, ◌<◌, ◌≡◌, refl, sym, subst, Bool, true, false, List, [], ◌∷◌, ◌++◌,
  length, ltb, ok, arith, Option, some, none, drop-length_append, length-append,
}
use netrex_rak_net.Wire.{ByteOrder, IsByteOrder, read_u24_le}
use netrex_rak_net.Wire.Reads.{
  Reads, Reads->>=, Reads->>=_done, Reads-done, Reads-read_u8, Reads-u16_be, Reads-u24_le,
  Reads-u32_be, Reads-read_slice,
}
use netrex_rak_net.Reliability
use netrex_rak_net.Reliability.{
  Reliability, from_flags, to_flags, is_reliable, is_sequenced_or_ordered,
}
use netrex_rak_net.Frame.{
  Frame, FragmentMeta, is_some, parse, parse_if, parse_meta, parse_head, flags_of, compose,
  compose_if, compose_head, compose_order, compose_meta, order_of, channel_of, compose_fields,
}

-- An index is there exactly where the test holds, and has 24 bits; so for the channel, of any size.
abbrev pub IndexFits : Bool → Option ℕ → Type 0
IndexFits true (some i) = i < 2 ^ 24
IndexFits true none = ⊥
IndexFits false none = Unit
IndexFits false (some i) = ⊥

abbrev pub ChannelFits : Bool → Option ℕ → Type 0
ChannelFits true (some c) = Unit
ChannelFits true none = ⊥
ChannelFits false none = Unit
ChannelFits false (some c) = ⊥

abbrev pub MetaFits : Option FragmentMeta → Type 0
MetaFits none = Unit
MetaFits (some meta) = (meta.size < 2 ^ 32) × (meta.id < 2 ^ 16) × (meta.index < 2 ^ 32)

-- A frame whose fields agree with its reliability and its body, which is below 8 KiB.
pub record IsFrame (f : Frame) : Type 0 where
  pub flagged : f.flags ≡ flags_of f
  pub sized : f.size ≡ length f.body
  pub body_fits : length f.body < 8192
  pub reliable_fits : IndexFits (is_reliable f.reliability) f.reliable_index
  pub sequence_fits : IndexFits (Reliability.is_sequenced f.reliability) f.sequence_index
  pub order_fits : IndexFits (is_sequenced_or_ordered f.reliability) f.order_index
  pub channel_fits : ChannelFits (is_sequenced_or_ordered f.reliability) f.order_channel
  pub meta_fits : MetaFits f.fragment_meta

-- The flags name the reliability, and whether the frame is a fragment.
flags_of-reads :
    (r : Reliability)
    → (from_flags (bit_or (to_flags r) 0x10) ≡ r)
      × (from_flags (to_flags r) ≡ r)
      × (ltb 0 (bit_and (bit_or (to_flags r) 0x10) 0x10) ≡ true)
      × (ltb 0 (bit_and (to_flags r) 0x10) ≡ false)
unfolding from_flags to_flags
flags_of-reads Reliability.unreliable = (refl, refl, refl, refl)
flags_of-reads _ = (refl, refl, refl, refl)

from_flags-flags_of : (f : Frame) → from_flags (flags_of f) ≡ f.reliability
unfolding flags_of
from_flags-flags_of f = ground (arith, flags_of-reads f.reliability)

fragment_bit : (f : Frame) → ltb 0 (bit_and (flags_of f) 0x10) ≡ is_some f.fragment_meta
unfolding flags_of
fragment_bit f = ground (arith, flags_of-reads f.reliability)

module _ (b : ByteOrder) (laws : IsByteOrder b) where
  -- What is written for a part of a frame is read for that part.
  index-Reads :
      (test : Bool) (index : Option ℕ)
      → IndexFits test index
      → (bs : List ℕ) × (parse_if test index b.put_u24_le ≡ ok bs)
        × Reads (compose_if test (read_u24_le b)) bs index
  unfolding parse_if compose_if
  index-Reads true (some i) fits =
      let (bs, e, _, reads) = Reads-u24_le b laws i fits in
      (bs, rw e, Reads->>=_done (λ a. some a) reads)
  index-Reads true none fits = absurd fits
  index-Reads false none fits = ([], refl, Reads-done none)
  index-Reads false (some i) fits = absurd fits

  order-Reads :
      (test : Bool) (index channel : Option ℕ)
      → IndexFits test index
      → ChannelFits test channel
      → (bs : List ℕ) × (cs : List ℕ) × (order : Option (ℕ × ℕ)) × (parse_if test index b.put_u24_le
          ≡ ok bs)
        × (parse_if test channel (λ c. some (c ∷ [])) ≡ ok cs)
        × Reads (compose_if test (compose_order b)) (bs ++ cs) order
        × (order_of order ≡ index)
        × (channel_of order ≡ channel)
  unfolding parse_if compose_if compose_order order_of channel_of
  order-Reads true (some i) (some c) fits fits' =
      let (bs, e, _, reads) = Reads-u24_le b laws i fits in
      let pair : ℕ → ℕ × ℕ = λ c. (i, c) in
      (
        bs,
        c ∷ [],
        some (i, c),
        rw e,
        refl,
        Reads->>=_done (λ a. some a) (Reads->>= _ reads (Reads->>=_done pair (Reads-read_u8 c))),
        refl,
        refl,
      )
  order-Reads true (some i) none fits fits' = absurd fits'
  order-Reads true none channel fits fits' = absurd fits
  order-Reads false none none fits fits' = ([], [], none, refl, refl, Reads-done none, refl, refl)
  order-Reads false none (some c) fits fits' = absurd fits'
  order-Reads false (some i) channel fits fits' = absurd fits

  meta-Reads :
      (meta : Option FragmentMeta)
      → MetaFits meta
      → Reads (compose_if (is_some meta) (compose_meta b)) (parse_meta b meta) meta
  unfolding compose_if parse_meta compose_meta
  meta-Reads none fits = Reads-done none
  meta-Reads (some meta) fits =
      let build : ℕ → FragmentMeta =
        λ index. record { size = meta.size; id = meta.id; index = index } in
      Reads->>=_done (λ m. some m)
        (Reads->>= _ (Reads-u32_be b laws meta.size fits.0) (
          Reads->>= _ (Reads-u16_be b laws meta.id fits.1)
            (Reads->>=_done build (Reads-u32_be b laws meta.index fits.2))))

  -- The fields that are read from flags that say the reliability and whether there is a fragment.
  FieldsRead : Frame → Reliability → Bool → Type 0
  FieldsRead f r fragmented =
      (hs : List ℕ) × (parse_head b f ≡ ok (flags_of f ∷ hs))
      × Reads (compose_fields b (flags_of f) r fragmented) hs (record f { body = [] })

  fields-read : (f : Frame) → IsFrame f → FieldsRead f f.reliability (is_some f.fragment_meta)
  unfolding FieldsRead parse_head compose_fields
  fields-read f is =
      let r = f.reliability in
      let bits : ℕ = length f.body % 2 ^ 16 * 8 % 2 ^ 16 in
      let (rs, e1, reads1) = index-Reads (is_reliable r) f.reliable_index is.reliable_fits in
      let (ss, e2, reads2) =
        index-Reads (Reliability.is_sequenced r) f.sequence_index is.sequence_fits in
      let (os, cs, order, e3, e4, reads3, index, channel) =
        order-Reads (is_sequenced_or_ordered r) f.order_index f.order_channel is.order_fits
          is.channel_fits in
      let build : Option FragmentMeta → Frame = λ meta. record {
        flags = flags_of f;
        size = bits / 8;
        reliable_index = f.reliable_index;
        sequence_index = f.sequence_index;
        order_index = order_of order;
        order_channel = channel_of order;
        fragment_meta = meta;
        reliability = r;
        body = [];
      } in
      let sized : bits / 8 ≡ f.size = omega (arith, is.sized, is.body_fits) in
      let same : build f.fragment_meta ≡ record f { body = [] } = λ i. record f {
        flags = sym is.flagged i;
        size = sized i;
        order_index = index i;
        order_channel = channel i;
        body = [];
      } in
      (
        b.put_u16_be bits ++ (rs ++ (ss ++ ((os ++ cs) ++ parse_meta b f.fragment_meta))),
        rw (e1, e2, e3, e4),
        subst (Reads _ _) same (
            Reads->>= _ (Reads-u16_be b laws bits (omega arith)) (
              Reads->>= _ reads1 (
                Reads->>= _ reads2 (
                  Reads->>= _ reads3
                    (Reads->>=_done build (meta-Reads f.fragment_meta is.meta_fits)))))),
      )

  -- What is written before the body is not empty, and is read for the frame without its body.
  pub head-Reads :
      (f : Frame)
      → IsFrame f
      → (hs : List ℕ) × (parse_head b f ≡ ok hs)
        × Reads (compose_head b) hs (record f { body = [] })
        × (0 < length hs)
  unfolding compose_head FieldsRead
  head-Reads f is =
      let (hs, e, reads) =
        subst (λ r. FieldsRead f r (ltb 0 (bit_and (flags_of f) 0x10)))
          (sym (from_flags-flags_of f))
          (subst (FieldsRead f f.reliability) (sym (fragment_bit f)) (fields-read f is)) in
      (flags_of f ∷ hs, e, Reads->>= _ (Reads-read_u8 (flags_of f)) reads, omega arith)

  pub frame-Reads :
      (f : Frame)
      → IsFrame f
      → (bs : List ℕ) × (parse b f ≡ ok bs) × Reads (compose b) bs f × (0 < length bs)
  unfolding parse compose
  frame-Reads f is =
      let (hs, e, reads, some_bytes) = head-Reads f is in
      let build : List ℕ → Frame = λ body. record f { body = body } in
      (
        hs ++ f.body,
        rw e,
        Reads->>= _ reads (Reads->>=_done build (Reads-read_slice f.size f.body (sym is.sized))),
        omega (arith, length-append hs f.body),
      )

  -- A frame whose flags are those of its reliability and of its being a fragment or not, which has an
  -- index exactly where its reliability calls for one, and each of them below 2 ^ 24, and a channel
  -- exactly where it is ordered or sequenced, and whose fragment, if it is one, has a size and an index of
  -- 32 bits and an id of 16 bits, whose size is the length of its body, and whose body is shorter than 8
  -- KiB, is written without a panic, and is read back from what was written, wherever that stands in a
  -- source: the result is the same frame, and the position moves to the end of what was written.
  pub compose_frame-parse :
      (f : Frame) (front rest : List ℕ)
      → IsFrame f
      → (bs : List ℕ) × (parse b f ≡ ok bs)
        × (compose b (front ++ (bs ++ rest)) (length front) ≡ ok (f, length front + length bs))
  compose_frame-parse f front rest is =
      let (bs, e, reads, _) = frame-Reads f is in
      (
        bs,
        e,
        reads.run (front ++ (bs ++ rest)) rest (length front)
            (drop-length_append (length front) front (bs ++ rest) refl)
            (omega (arith, length-append front (bs ++ rest))),
      )
