-- ===== src/Frame/Wraps.antt =====
-- A frame whose body is of any length: its length is written in bits, as a `u16`.
use netrex_rak_net.Prelude.{
  ℕ, ◌+◌, ◌-◌, ◌%◌, ◌^◌, ◌≡◌, refl, sym, ap, ◌∙◌, subst, List, [], ◌++◌, length, take, drop, ok,
  ok_injective, arith, ◌*◌, length-take, take-append-drop, append_assoc, length-append,
}
use netrex_rak_net.Wire.{ByteOrder, IsByteOrder}
use netrex_rak_net.Frame.{Frame, parse_head, parse, compose, flags_of}
use netrex_rak_net.Frame.Codec.{IsFrame, head-Reads, compose_frame-parse}

-- The frame without its body.
abbrev pub bodiless : Frame → Frame
bodiless f = record f { size = 0; body = [] }

-- The frame with what is read of its body.
abbrev pub cut : Frame → Frame
cut f = record f { size = length f.body % 8192; body = take (length f.body % 8192) f.body }

bits_wrap : (n : ℕ) → n % 8192 % 2 ^ 16 * 8 % 2 ^ 16 ≡ n % 2 ^ 16 * 8 % 2 ^ 16
bits_wrap n = omega arith

cut-IsFrame : (f : Frame) → IsFrame (bodiless f) → IsFrame (cut f)
unfolding flags_of
cut-IsFrame f is =
    let size : length (take (length f.body % 8192) f.body) ≡ length f.body % 8192 =
      omega (arith, length-take (length f.body % 8192) f.body) in
    record {
      flagged = is.flagged;
      sized = sym size;
      body_fits = omega (arith, size);
      reliable_fits = is.reliable_fits;
      sequence_fits = is.sequence_fits;
      order_fits = is.order_fits;
      channel_fits = is.channel_fits;
      meta_fits = is.meta_fits;
    }

module _ (b : ByteOrder) (laws : IsByteOrder b) where
  head-cut : (f : Frame) → parse_head b f ≡ parse_head b (cut f)
  unfolding parse_head flags_of
  head-cut f =
      let size : length (take (length f.body % 8192) f.body) ≡ length f.body % 8192 =
        omega (arith, length-take (length f.body % 8192) f.body) in
      rw (size, bits_wrap (length f.body)) refl

  -- The bytes of a frame end with as much of its body as is not read.
  written-cut :
      (hs body rest : List ℕ) (n : ℕ)
      → (hs ++ body) ++ rest ≡ (hs ++ take n body) ++ (drop n body ++ rest)
  written-cut hs body rest n =
      subst (λ x. (hs ++ x) ++ rest ≡ (hs ++ take n body) ++ (drop n body ++ rest))
        (take-append-drop n body)
        (append_assoc hs (take n body ++ drop n body) rest
          ∙ (ap (◌++◌ hs) (append_assoc (take n body) (drop n body) rest)
              ∙ sym (append_assoc hs (take n body) (drop n body ++ rest))))

  -- A frame whose flags are those of its reliability and of its being a fragment or not, which has an
  -- index exactly where its reliability calls for one, and each of them below 2 ^ 24, and a channel
  -- exactly where it is ordered or sequenced, and whose fragment, if it is one, has a size and an index of
  -- 32 bits and an id of 16 bits, has a body of any length. It is written without a panic, with its whole
  -- body. What is read back, wherever that stands in a source, is the frame with the length of its body
  -- modulo 8 KiB for its size and just so many bytes of the body, and the position moves behind those: the
  -- rest of the body is left over, to be read as what comes next.
  pub compose_frame_wraps :
      (f : Frame) (front rest : List ℕ)
      → IsFrame (bodiless f)
      → (bs : List ℕ) × (end : ℕ) × (parse b f ≡ ok bs)
        × (compose b (front ++ (bs ++ rest)) (length front) ≡ ok (cut f, end))
        × (end + (length f.body - length f.body % 8192) ≡ length front + length bs)
  unfolding parse
  compose_frame_wraps f front rest is =
      let g = cut f in
      let is' = cut-IsFrame f is in
      let n = length f.body % 8192 in
      let (hs, e, _, _) = head-Reads b laws g is' in
      let (bs, written, read) = compose_frame-parse b laws g front (drop n f.body ++ rest) is' in
      let same : bs ≡ hs ++ g.body = ok_injective (sym written ∙ rw e refl) in
      let whole : front ++ (bs ++ (drop n f.body ++ rest)) ≡ front ++ ((hs ++ f.body) ++ rest) =
        ap (◌++◌ front) (rw same (sym (written-cut hs f.body rest n))) in
      (
        hs ++ f.body,
        length front + length bs,
        rw (head-cut f, e) refl,
        subst (λ source. compose b source (length front) ≡ ok (g, length front + length bs)) whole
            read,
        omega (
          arith,
          ap length same,
          length-append hs g.body,
          length-append hs f.body,
          length-take n f.body,
        ),
      )
