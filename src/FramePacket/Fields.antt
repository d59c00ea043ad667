-- ===== src/FramePacket/Fields.antt =====
-- The header and the length of a datagram, and the fields of its frames that are not written.
use netrex_rak_net.Prelude.{
  ℕ, ◌≡◌, refl, List, [], ◌∷◌, ◌++◌, ok, unwrap, Always-ok, Always, Always-behind, Always->>=,
  Option, none, some, length, ◌+◌, arith, length-append,
}
use netrex_rak_net.Wire.{ByteOrder, IsByteOrder}
use netrex_rak_net.Frame
use netrex_rak_net.Frame.{Frame}
use netrex_rak_net.Frame.Carrier.{wire, parse-wire}
use netrex_rak_net.FramePacket.{FramePacket, parse, parse_frames}

pub parse-wire_frames :
    (b : ByteOrder) (p : FramePacket) (f : Frame)
    → parse b (record p { frames = wire f ∷ [] }) ≡ parse b (record p { frames = f ∷ [] })
unfolding parse parse_frames
parse-wire_frames b p f = rw (parse-wire b f)

-- A datagram of frames starts with 0x80.
pub parse-header :
    (b : ByteOrder) (p : FramePacket) (bytes : List ℕ)
    → parse b p ≡ ok bytes
    → (rest : List ℕ) × (bytes ≡ 0x80 ∷ rest)
unfolding parse
parse-header b p bytes e =
    (Always-behind {Q = λ (bs : List ℕ). (rest : List ℕ) × (bs ≡ 0x80 ∷ rest)}
        (unwrap (b.put_u24_le p.sequence))
        λ seq. Always-behind (parse_frames b p.frames) λ rest. Always-ok (seq ++ rest, refl)).has
      bytes e

unwrap_ok : {A : Type 0} (o : Option A) (a : A) → unwrap o ≡ ok a → o ≡ some a
unwrap_ok none a e = cc
unwrap_ok (some x) a e = cc

module _ (b : ByteOrder) (laws : IsByteOrder b) (p : FramePacket) where
  sequence_width : Always (λ seq. length seq ≡ 3) (unwrap (b.put_u24_le p.sequence))
  sequence_width = record {
    has = λ seq e. laws.u24_width p.sequence seq (unwrap_ok (b.put_u24_le p.sequence) seq e);
  }

  -- A datagram without frames has four bytes.
  pub length-parse_none : p.frames ≡ [] → Always (λ bytes. length bytes ≡ 4) (parse b p)
  unfolding parse parse_frames
  length-parse_none none_yet =
      Always->>= (unwrap (b.put_u24_le p.sequence)) sequence_width
        λ seq three. rw none_yet (Always-ok (omega (arith, three, length-append seq [])))

  -- A datagram of one frame has four more than the frame.
  pub length-parse_one :
      (f : Frame) (bytes : List ℕ)
      → p.frames ≡ f ∷ []
      → Frame.parse b f ≡ ok bytes
      → Always (λ all. length all ≡ length bytes + 4) (parse b p)
  unfolding parse parse_frames
  length-parse_one f bytes one written =
      Always->>= (unwrap (b.put_u24_le p.sequence)) sequence_width λ seq three.
        rw (one, written)
          (Always-ok
            (omega (arith, three, length-append seq (bytes ++ []), length-append bytes [])))
