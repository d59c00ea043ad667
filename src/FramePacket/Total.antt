-- ===== src/FramePacket/Total.antt =====
-- `compose` ends on every source.
use netrex_rak_net.Prelude
use netrex_rak_net.Prelude.{
  ℕ, zero, suc, ◌+◌, ◌-◌, ◌<◌, ◌≤◌, ◌≡◌, ◌≢◌, refl, Bool, true, false, List, [], ◌∷◌, ◌++◌, length,
  leb, if◌then◌else◌, Result, ok, err, panic, stuck, arith, recoverable_known, Bool-cases, inl, inr,
  Option,
}
use netrex_rak_net.Wire.{ByteOrder}
use netrex_rak_net.Wire.Ends.{Ends->>=, Ends-read_u8, Ends-u24_le}
use netrex_rak_net.Frame
use netrex_rak_net.Frame.{Frame}
use netrex_rak_net.Frame.Ends.{compose-Ends}
use netrex_rak_net.FramePacket.{new, frames_loop, compose_start, compose}

module _ (b : ByteOrder) where
  -- A round, by the outcome of the frame's read, where the rounds behind it end.
  round-ne-stuck :
      (r : Result (Frame × ℕ)) (fuel : ℕ) (source : List ℕ) (offset : ℕ) (frames : List Frame)
      → Frame.compose b source offset ≡ r
      → ((f : Frame) (offset' : ℕ)
          → r ≡ ok (f, offset')
          → offset < length source
          → frames_loop b fuel source offset' (frames ++ (f ∷ [])) ≢ stuck)
      → r ≢ stuck
      → frames_loop b (suc fuel) source offset frames ≢ stuck
  unfolding frames_loop
  round-ne-stuck r fuel source offset frames h rest ends =
      elim (Bool-cases (leb (length source) offset)) [
        | inl end ↦ rw end (λ x. cc)
        | inr more ↦ rw (more, h) (by_outcome r (λ f p e. rest f p e (ground arith)) ends)
      ]
    where
      by_outcome :
          (r : Result (Frame × ℕ))
          → ((f : Frame) (p : ℕ)
              → r ≡ ok (f, p)
              → frames_loop b fuel source p (frames ++ (f ∷ [])) ≢ stuck)
          → r ≢ stuck
          → (elim r [
            | ok (f, p) ↦ frames_loop b fuel source p (frames ++ (f ∷ []))
            | err e ↦ err (recoverable_known "Frame composition failed! Failed to read frame.")
            | panic ↦ panic
            | stuck ↦ stuck
          ])
            ≢ stuck
      by_outcome (ok (f, p)) rest ne = rest f p refl
      by_outcome (err e) rest ne = λ x. cc
      by_outcome panic rest ne = λ x. cc
      by_outcome stuck rest ne = absurd (ne refl)

  frames_loop-ne-stuck :
      (fuel : ℕ) (source : List ℕ) (offset : ℕ) (frames : List Frame)
      → length source - offset < fuel
      → frames_loop b fuel source offset frames ≢ stuck
  frames_loop-ne-stuck zero source offset frames enough = absurd (omega arith)
  frames_loop-ne-stuck (suc fuel) source offset frames enough =
      let e = compose-Ends b in
      round-ne-stuck (Frame.compose b source offset) fuel source offset frames refl
        (λ f offset' h more.
          frames_loop-ne-stuck fuel source offset' (frames ++ (f ∷ []))
            (omega (arith, e.takes source offset offset' f h)))
        (e.ends source offset)

  start-ne-stuck : (source : List ℕ) (position : ℕ) → compose_start b source position ≢ stuck
  unfolding compose_start
  start-ne-stuck = (Ends->>= _ Ends-read_u8 (λ header. Ends-u24_le b)).ends

  -- Whatever the bytes, `compose` ends: its loop never runs out of fuel.
  pub compose-ne-stuck : (source : List ℕ) (position : ℕ) → compose b source position ≢ stuck
  unfolding compose
  compose-ne-stuck source position =
      by_start (compose_start b source position) (start-ne-stuck source position)
    where
      by_frames :
          (sequence : ℕ) (r : Result (List Frame))
          → r ≢ stuck
          → (Prelude.◌>>=◌ r λ frames. ok (record new { sequence = sequence; frames = frames }))
            ≢ stuck
      by_frames sequence (ok fs) ne = λ x. cc
      by_frames sequence (err e) ne = λ x. cc
      by_frames sequence panic ne = λ x. cc
      by_frames sequence stuck ne = absurd (ne refl)

      by_start :
          (r : Result (ℕ × ℕ))
          → r ≢ stuck
          → (Prelude.◌>>=◌ r λ (sequence, offset).
              Prelude.◌>>=◌
                (frames_loop b (length source + 1) source offset [])
                λ frames. ok (record new { sequence = sequence; frames = frames }))
            ≢ stuck
      by_start (ok (sequence, offset)) ne =
          by_frames sequence (frames_loop b (length source + 1) source offset [])
            (frames_loop-ne-stuck (length source + 1) source offset [] (omega arith))
      by_start (err e) ne = λ x. cc
      by_start panic ne = λ x. cc
      by_start stuck ne = absurd (ne refl)
