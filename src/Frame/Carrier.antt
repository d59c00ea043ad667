-- ===== src/Frame/Carrier.antt =====
-- The bytes of a frame do not depend on its fields `flags` and `size`, and those of a whole, reliably
-- ordered frame are ten more than its body.
use netrex_rak_net.Prelude.{
  ℕ, ◌+◌, ◌*◌, ◌%◌, ◌^◌, ◌<◌, ◌≡◌, refl, List, [], ◌∷◌, ◌++◌, some, length, length-append, ok,
  arith,
}
use netrex_rak_net.Wire.{ByteOrder, IsByteOrder}
use netrex_rak_net.Reliability.{reliable_ord, is_reliable, is_sequenced, is_sequenced_or_ordered}
use netrex_rak_net.Frame.{Frame, parse, parse_head, parse_if, parse_meta, flags_of, init}
use netrex_rak_net.Frame.Codec.{IsFrame}

-- The frame as it is read back: with its flags and its size.
abbrev pub wire : Frame → Frame
wire f = record f { flags = flags_of f; size = length f.body }

-- A whole, reliably ordered frame on channel 0.
abbrev pub ordered_frame : ℕ → ℕ → List ℕ → Frame
ordered_frame message order body = record init {
  reliability = reliable_ord;
  reliable_index = some message;
  order_index = some order;
  order_channel = some 0;
  body = body;
}

-- The same frame as the only fragment of its payload.
abbrev pub fragment_frame : ℕ → ℕ → ℕ → List ℕ → Frame
fragment_frame id message order body = record (ordered_frame message order body) {
  fragment_meta = some (record { size = 1; id = id; index = 0 });
}

pub wire-IsFrame :
    (message order : ℕ) (body : List ℕ)
    → message < 2 ^ 24
    → order < 2 ^ 24
    → length body < 8192
    → IsFrame (wire (ordered_frame message order body))
unfolding flags_of is_reliable is_sequenced is_sequenced_or_ordered
wire-IsFrame message order body hm ho hb = record {
  flagged = refl;
  sized = refl;
  body_fits = hb;
  reliable_fits = hm;
  sequence_fits = tt;
  order_fits = ho;
  channel_fits = tt;
  meta_fits = tt;
}

pub wire_fragment-IsFrame :
    (id message order : ℕ) (body : List ℕ)
    → id < 2 ^ 16
    → message < 2 ^ 24
    → order < 2 ^ 24
    → length body < 8192
    → IsFrame (wire (fragment_frame id message order body))
unfolding flags_of is_reliable is_sequenced is_sequenced_or_ordered
wire_fragment-IsFrame id message order body hi hm ho hb = record {
  flagged = refl;
  sized = refl;
  body_fits = hb;
  reliable_fits = hm;
  sequence_fits = tt;
  order_fits = ho;
  channel_fits = tt;
  meta_fits = (omega arith, hi, omega arith);
}

module _ (b : ByteOrder) where
  pub parse-wire : (f : Frame) → parse b (wire f) ≡ parse b f
  unfolding parse parse_head flags_of
  parse-wire f = refl

  pub ordered_frame-written :
      (message order : ℕ) (body : List ℕ)
      → IsByteOrder b
      → message < 2 ^ 24
      → order < 2 ^ 24
      → (bs : List ℕ) × (parse b (ordered_frame message order body) ≡ ok bs)
        × (length bs ≡ length body + 10)
  unfolding parse parse_head parse_if parse_meta is_reliable is_sequenced is_sequenced_or_ordered
  ordered_frame-written message order body laws hm ho =
      let (ms, e, three, _) = laws.u24_le message hm in
      let (os, e', three', _) = laws.u24_le order ho in
      let bits = b.put_u16_be (length body % 2 ^ 16 * 8 % 2 ^ 16) in
      let (two, _) = laws.u16_be (length body % 2 ^ 16 * 8 % 2 ^ 16) (omega arith) in
      let head : List ℕ =
        flags_of (ordered_frame message order body) ∷ (bits ++ (ms ++ ((os ++ (0 ∷ [])) ++ []))) in
      (
        head ++ body,
        rw (e, e'),
        omega (
          arith,
          length-append head body,
          length-append bits (ms ++ ((os ++ (0 ∷ [])) ++ [])),
          length-append ms ((os ++ (0 ∷ [])) ++ []),
          length-append (os ++ (0 ∷ [])) [],
          length-append os (0 ∷ []),
          two,
          three,
          three',
        ),
      )

  -- The only fragment of a payload takes twenty bytes more.
  pub fragment_frame-written :
      (id message order : ℕ) (body : List ℕ)
      → IsByteOrder b
      → id < 2 ^ 16
      → message < 2 ^ 24
      → order < 2 ^ 24
      → (bs : List ℕ) × (parse b (fragment_frame id message order body) ≡ ok bs)
        × (length bs ≡ length body + 20)
  unfolding parse parse_head parse_if parse_meta is_reliable is_sequenced is_sequenced_or_ordered
  fragment_frame-written id message order body laws hi hm ho =
      let (ms, e, three, _) = laws.u24_le message hm in
      let (os, e', three', _) = laws.u24_le order ho in
      let bits = b.put_u16_be (length body % 2 ^ 16 * 8 % 2 ^ 16) in
      let (two, _) = laws.u16_be (length body % 2 ^ 16 * 8 % 2 ^ 16) (omega arith) in
      let (four, _) = laws.u32_be 1 (omega arith) in
      let (two', _) = laws.u16_be id hi in
      let (four', _) = laws.u32_be 0 (omega arith) in
      let meta : List ℕ = b.put_u32_be 1 ++ (b.put_u16_be id ++ b.put_u32_be 0) in
      let head : List ℕ =
        flags_of (fragment_frame id message order body)
        ∷ (bits ++ (ms ++ ((os ++ (0 ∷ [])) ++ meta))) in
      (
        head ++ body,
        rw (e, e'),
        omega (
          arith,
          length-append head body,
          length-append bits (ms ++ ((os ++ (0 ∷ [])) ++ meta)),
          length-append ms ((os ++ (0 ∷ [])) ++ meta),
          length-append (os ++ (0 ∷ [])) meta,
          length-append os (0 ∷ []),
          length-append (b.put_u32_be 1) (b.put_u16_be id ++ b.put_u32_be 0),
          length-append (b.put_u16_be id) (b.put_u32_be 0),
          two,
          three,
          three',
          four,
          two',
          four',
        ),
      )
