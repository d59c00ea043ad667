-- ===== src/FramePacket/Codec.antt =====
-- The bytes of a datagram of frames are read back.
use netrex_rak_net.Prelude.{
  ℕ, zero, suc, ◌+◌, ◌^◌, ◌<◌, ◌≤◌, ◌≡◌, refl, sym, ap, ◌∙◌, List, [], ◌∷◌, ◌++◌, length, drop, ok,
  All, arith, append_assoc, append-nil, length-append, le→leb, lt→leb, length-drop,
}
use netrex_rak_net.Wire.{ByteOrder, IsByteOrder, read_u24_le}
use netrex_rak_net.Wire.Reads.{Reads, Reads->>=, Reads-read_u8, Reads-u24_le, behind}
use netrex_rak_net.Frame
use netrex_rak_net.Frame.{Frame}
use netrex_rak_net.Frame.Codec.{IsFrame, frame-Reads}
use netrex_rak_net.FramePacket.{
  FramePacket, new, frames_loop, compose_start, compose, parse, parse_frames,
}

module _ (b : ByteOrder) (laws : IsByteOrder b) where
  -- One round of the loop on a frame that is read.
  frames_loop_next :
      (fuel : ℕ) (source : List ℕ) (offset offset' : ℕ) (frame : Frame) (frames : List Frame)
      → offset < length source
      → Frame.compose b source offset ≡ ok (frame, offset')
      → frames_loop b (suc fuel) source offset frames
        ≡ frames_loop b fuel source offset' (frames ++ (frame ∷ []))
  unfolding frames_loop
  frames_loop_next fuel source offset offset' frame frames h e =
      rw (lt→leb (length source) offset h, e)

  frames_loop_end :
      (fuel : ℕ) (source : List ℕ) (offset : ℕ) (frames : List Frame)
      → drop offset source ≡ []
      → frames_loop b (suc fuel) source offset frames ≡ ok frames
  unfolding frames_loop
  frames_loop_end fuel source offset frames e =
      rw (le→leb (length source) offset (omega (arith, ap length e, length-drop offset source)))

  -- From where `bs` is the rest of a source on, the loop reads the frames.
  LoopReads : List Frame → List ℕ → Type 0
  LoopReads fs bs =
      (fuel : ℕ) (source : List ℕ) (offset : ℕ) (frames : List Frame)
      → drop offset source ≡ bs
      → offset ≤ length source
      → length bs < fuel
      → frames_loop b fuel source offset frames ≡ ok (frames ++ fs)

  LoopReads-nil : LoopReads [] []
  unfolding LoopReads
  LoopReads-nil zero source offset frames rest h enough = absurd (omega arith)
  LoopReads-nil (suc fuel) source offset frames rest h enough =
      frames_loop_end fuel source offset frames rest ∙ ap ok (sym (append-nil frames))

  LoopReads-cons :
      (f : Frame) (fs : List Frame) (bs cs : List ℕ)
      → 0 < length bs
      → Reads (Frame.compose b) bs f
      → LoopReads fs cs
      → LoopReads (f ∷ fs) (bs ++ cs)
  unfolding LoopReads
  LoopReads-cons f fs bs cs some_bytes reads loop zero source offset frames rest h enough =
      absurd (omega arith)
  LoopReads-cons f fs bs cs some_bytes reads loop (suc fuel) source offset frames rest h enough =
      let (next, within) = behind source bs cs offset rest h in
      let sizes = length-append bs cs in
      let more : offset < length source =
        omega (arith, ap length rest, sizes, length-drop offset source) in
      frames_loop_next fuel source offset (offset + length bs) f frames more
        (reads.run source cs offset rest h)
      ∙ (loop fuel source (offset + length bs) (frames ++ (f ∷ [])) next within (omega arith)
          ∙ ap ok (append_assoc frames (f ∷ []) fs))

  frames-written :
      (fs : List Frame)
      → All IsFrame fs
      → (bs : List ℕ) × (parse_frames b fs ≡ ok bs) × LoopReads fs bs
  unfolding parse_frames
  frames-written [] is = ([], refl, LoopReads-nil)
  frames-written (f ∷ fs) is =
      let (bs, e, reads, some_bytes) = frame-Reads b laws f is.0 in
      let (cs, e', loop) = frames-written fs is.1 in
      (bs ++ cs, rw (e, e'), LoopReads-cons f fs bs cs some_bytes reads loop)

  compose_lem :
      (source : List ℕ) (fs : List Frame) {sequence offset : ℕ}
      → compose_start b source 0 ≡ ok (sequence, offset)
      → frames_loop b (length source + 1) source offset [] ≡ ok fs
      → compose b source 0 ≡ ok (record new { sequence = sequence; frames = fs })
  unfolding compose
  compose_lem source fs e e' = rw (e, e')

  -- A datagram whose sequence number is below 2 ^ 24, with frames as follows, is written without a panic,
  -- and what is written is read as a datagram with the same sequence number and the same frames in the
  -- same order. Of each frame the flags are those of its reliability and of its being a fragment or not,
  -- there is an index exactly where its reliability calls for one, each below 2 ^ 24, and a channel
  -- exactly where it is ordered or sequenced, a fragment's size and index have 32 bits and its id has 16,
  -- the size is the length of the body, and the body is shorter than 8 KiB.
  pub compose_packet-parse :
      (p : FramePacket)
      → p.sequence < 2 ^ 24
      → All IsFrame p.frames
      → (bs : List ℕ) × (parse b p ≡ ok bs)
        × (compose b bs 0 ≡ ok (record new { sequence = p.sequence; frames = p.frames }))
  unfolding parse compose_start LoopReads
  compose_packet-parse p small is =
      let (seq, e, _, reads) = Reads-u24_le b laws p.sequence small in
      let (bs, e', loop) = frames-written p.frames is in
      let source : List ℕ = 0x80 ∷ (seq ++ bs) in
      let start = Reads->>= (λ _. read_u24_le b) (Reads-read_u8 0x80) reads in
      let (next, within) = behind source (0x80 ∷ seq) bs 0 refl (omega arith) in
      (
        source,
        rw (e, e'),
        compose_lem source p.frames (start.run source bs 0 refl (omega arith)) (
            loop (length source + 1) source _ [] next within (omega (arith, length-append seq bs))),
      )
