-- ===== src/FramePacket.antt =====
-- src/internal/frame/mod.rs, `FramePacket`: a datagram of frames, and its bytes.
pub mod Codec
pub mod Total
pub mod Fields
use netrex_rak_net.Prelude.{
  ℕ, zero, suc, ◌+◌, Bool, true, false, List, [], ◌∷◌, ◌++◌, length, leb, if◌then◌else◌, Result, ok,
  err, panic, stuck, recoverable_known, unwrap, ◌>>=◌, ◌>>◌,
}
use netrex_rak_net.Wire
use netrex_rak_net.Wire.{ByteOrder, Reader, read_u8, read_u24_le}
use netrex_rak_net.Reliability
use netrex_rak_net.Reliability.{Reliability}
use netrex_rak_net.Frame
use netrex_rak_net.Frame.{Frame}

pub record FramePacket : Type 0 where
  pub sequence : ℕ
  pub frames : List Frame
  pub reliability : Reliability
  pub byte_length : ℕ

-- `FramePacket::new`.
abbrev pub new : FramePacket
new = record { sequence = 0; frames = []; reliability = Reliability.reliable_ord; byte_length = 0 }

module _ (b : ByteOrder) where
  -- The loop of `compose`, on fuel. The stream's position and the offset are one number in it.
  unfoldable pub frames_loop : ℕ → List ℕ → ℕ → List Frame → Result (List Frame)
  frames_loop zero source offset frames = stuck
  frames_loop (suc fuel) source offset frames =
      let next : Result (List Frame) = elim (Frame.compose b source offset) [
        | ok (frame, offset') ↦ frames_loop fuel source offset' (frames ++ (frame ∷ []))
        | err e ↦ err (recoverable_known "Frame composition failed! Failed to read frame.")
        | panic ↦ panic
        | stuck ↦ stuck
      ] in
      if leb (length source) offset then ok frames else next

  -- The header byte is skipped, and the 24 bits behind it are the sequence number.
  unfoldable pub compose_start : Reader ℕ
  compose_start = Wire.◌>>=◌ read_u8 (λ _. read_u24_le b)

  -- Each round takes a byte at least, so the fuel is enough.
  unfoldable pub compose : List ℕ → ℕ → Result FramePacket
  compose source position = do
    (sequence, offset) ← compose_start source position
    frames ← frames_loop (length source + 1) source offset []
    ok (record new { sequence = sequence; frames = frames })

  parse_frames : List Frame → Result (List ℕ)
  parse_frames [] = ok []
  parse_frames (f ∷ fs) = do bytes ← Frame.parse b f; rest ← parse_frames fs; ok (bytes ++ rest)

  unfoldable pub parse : FramePacket → Result (List ℕ)
  unfolding parse_frames
  parse p = do
    seq ← unwrap (b.put_u24_le p.sequence)
    rest ← parse_frames p.frames
    ok (0x80 ∷ (seq ++ rest))
