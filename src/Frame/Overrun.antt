-- ===== src/Frame/Overrun.antt =====
-- A frame that announces more bytes than follow.
use netrex_rak_net.Prelude.{
  ℕ, ◌+◌, ◌<◌, ◌≡◌, refl, subst, ap, List, [], ◌++◌, length, ok, panic, arith, lt→leb,
  length-append, ◌∙◌,
}
use netrex_rak_net.Wire.{ByteOrder, Reader, IsByteOrder, ◌>>=◌, done, read_slice}
use netrex_rak_net.Wire.Reads.{>>=-eq_ok, >>=-eq_panic}
use netrex_rak_net.Frame.{Frame, parse_head, compose_head, compose}
use netrex_rak_net.Frame.Codec.{IsFrame, head-Reads}

overrun :
    (n : ℕ) (source : List ℕ) (position : ℕ)
    → length source < position + n
    → read_slice n source position ≡ panic
unfolding read_slice
overrun n source position h = rw (lt→leb (position + n) (length source) h)

-- The read of the body, behind the head.
abbrev body_of : Frame → Reader Frame
body_of f = read_slice f.size >>= λ body. done (record f { body = body })

-- A frame whose flags, size and indexes are those of its reliability and body, with a body below 8 KiB,
-- indexes below 2 ^ 24 and the fields of its fragment within their types: where what is written of it
-- before its body is followed by fewer bytes than the body has, and by nothing else, `compose` panics, and
-- answers with no error.
pub compose_overrun :
    (b : ByteOrder) (f : Frame) (hs front : List ℕ)
    → IsByteOrder b
    → IsFrame f
    → parse_head b f ≡ ok hs
    → length front < length f.body
    → compose b (hs ++ front) 0 ≡ panic
unfolding compose
compose_overrun b f hs front laws is written short =
    let (hs', e, reads, _) = head-Reads b laws f is in
    let same : hs' ≡ hs = cc in
    let over : length (hs ++ front) < (0 + length hs') + f.size =
      omega (arith, length-append hs front, is.sized, ap length same) in
    let head =
      subst (λ bs. compose_head b (bs ++ front) 0 ≡ ok (record f { body = [] }, 0 + length hs'))
        same (reads.run (hs' ++ front) front 0 refl (omega arith)) in
    >>=-eq_ok (compose_head b) body_of (hs ++ front) head
    ∙ >>=-eq_panic (read_slice f.size) (λ body. done (record f { body = body })) (hs ++ front)
        (overrun f.size (hs ++ front) (0 + length hs') over)
