-- ===== src/Send/Bounded.antt =====
-- How large the datagrams are that `send_framed` sends.
use netrex_rak_net.Prelude.{
  ℕ, String, ◌+◌, ◌-◌, ◌^◌, ◌<◌, ◌≤◌, ◌≡◌, refl, ap, ◌∙◌, List, [], ◌∷◌, ◌++◌, Option, some, length,
  ltb, ◌||◌, subst, Result, ok, err, panic, stuck, ◌>>=◌, arith, All, Always, Always-ok,
  Always-behind, Always->>=, Always-if, Always-test, Always-weaken,
}
use netrex_rak_net.Wire.{ByteOrder, IsByteOrder}
use netrex_rak_net.Reliability.{Reliability}
use netrex_rak_net.Meta.{RakConnHandlerMeta, next_fragment_id}
use netrex_rak_net.Frame
use netrex_rak_net.Frame.{Frame, partition, init}
use netrex_rak_net.Frame.Partition.{labelled, IsCut, partition_lem}
use netrex_rak_net.FramePacket
use netrex_rak_net.FramePacket.{FramePacket}
use netrex_rak_net.FramePacket.Fields.{length-parse_none, length-parse_one}
use netrex_rak_net.Connection.{Connection, send_immediate}
use netrex_rak_net.Connection.Core.{core}
use netrex_rak_net.Send.{
  Sending, open_packet, stamp, note_fragment, free_all, send_packet, room, enter, send_loop,
  send_some, send_frames, send_framed,
}
use netrex_rak_net.Send.Core.{connection-note_fragment, send_loop-Keeps}
use netrex_rak_net.Send.Oversize.{
  Sends, Sends-refl, Sends-trans, SendsEmpty, IsEmpty, send_packet-SendsEmpty,
  outbound-note_fragment, sent-free_all, send_loop-Emptied, Emptied,
}

-- At most so many bytes.
abbrev pub Within : ℕ → List ℕ → Type 0
Within n bytes = length bytes ≤ n

-- All pieces of a cut but the last fill a fragment.
labelled-front :
    (n size id index : ℕ) (c : List ℕ) (cs : List (List ℕ))
    → IsCut n (c ∷ cs)
    → (front : List Frame) × (last : Frame) × (labelled size id index (c ∷ cs)
        ≡ front ++ (last ∷ []))
      × All (λ f. n ≤ length f.body) front
labelled-front n size id index c [] is = ([], _, refl, tt)
labelled-front n size id index c (d ∷ cs) is =
    let (front, last, e, all) = labelled-front n size id (index + 1) d cs is.1 in
    let first : Frame = record init {
      body = c;
      fragment_meta = some (record { size = size; id = id; index = index });
    } in
    (first ∷ front, last, ap (◌∷◌ first) e, (omega (arith, is.0), all))

-- Where each way on passes through `g`, the whole does.
>>=-last :
    {A B C : Type 0} (m : Result A) (f : A → Result C) (h : A → Result B) (g : B → Result C)
    → ((a : A) → f a ≡ (h a >>= g))
    → (m >>= f) ≡ ((m >>= h) >>= g)
>>=-last (ok a) f h g e = e a
>>=-last (err x) f h g e = refl
>>=-last panic f h g e = refl
>>=-last stuck f h g e = refl

module _ (b : ByteOrder) (fparse : Result (List ℕ) → Result (List ℕ)) (now : ℕ)
    (only : (m : Result (List ℕ)) (bs : List ℕ) → fparse m ≡ ok bs → m ≡ ok bs)
    (laws : IsByteOrder b) where
  -- The datagram that is filled has at most `n` bytes, and so have those that were sent.
  abbrev Light : ℕ → Connection → Sending → Type 0
  Light n c s =
      Always (λ bytes. length bytes ≤ n) (FramePacket.parse b s.outbound)
      × Sends (Within n) c s.connection

  IsEmpty-Within : (n : ℕ) (bytes : List ℕ) → 4 ≤ n → IsEmpty b fparse now bytes → length bytes ≤ n
  IsEmpty-Within n bytes h (p, none_yet, e) =
      omega (arith, (length-parse_none b laws p none_yet).has bytes (only _ bytes e))

  All-Within :
      (n : ℕ) (sent : List (String × List ℕ))
      → 4 ≤ n
      → All (λ e. IsEmpty b fparse now e.1) sent
      → All (λ e. length e.1 ≤ n) sent
  All-Within n [] h all = tt
  All-Within n (e ∷ sent) h all = (IsEmpty-Within n (e.1) h (all.0), All-Within n sent h (all.1))

  SendsEmpty-Within :
      (n : ℕ) (c d : Connection) → 4 ≤ n → SendsEmpty b fparse now c d → Sends (Within n) c d
  SendsEmpty-Within n c d h (sent, e, all) = (sent, e, All-Within n sent h all)

  -- The round of a frame that is alone in its datagram.
  enter-Light :
      (r : Reliability) (s : Sending) (f : Frame) (k : ℕ)
      → s.outbound.frames ≡ []
      → room b fparse now s.connection ≡ k
      → Always (λ s'. Light (k + 4) s.connection s') (enter b fparse now r s f)
  unfolding enter open_packet
  enter-Light r s f k empty size =
      Always->>= {P = λ bytes. Frame.parse b f ≡ ok bytes} (fparse (Frame.parse b f))
        (record { has = λ bytes e. only (Frame.parse b f) bytes e })
        λ bytes e.
          Always-test (ltb (room b fparse now s.connection) (length bytes + s.outbound.byte_length))
            (λ full.
              Always->>= (send_packet b fparse now s.connection s.outbound)
                (send_packet-SendsEmpty b fparse now s.connection s.outbound empty)
                λ c sends. Always-ok (
                  Always-weaken (length-parse_none b laws _ refl) (λ all h. omega arith),
                  SendsEmpty-Within (k + 4) s.connection c (omega arith) sends,
                ))
            λ fits. Always-ok (
              Always-weaken (length-parse_one b laws _ f bytes (ap (λ fs. fs ++ (f ∷ [])) empty) e)
                  (λ all h. ground (arith, fits, size, h)),
              Sends-refl (Within (k + 4)) s.connection,
            )

  send_loop-append :
      (r : Reliability) (i j : Option ℕ) (xs ys : List Frame) (s : Sending)
      → send_loop b fparse now r i j (xs ++ ys) s
        ≡ (send_loop b fparse now r i j xs s >>= λ s'. send_loop b fparse now r i j ys s')
  unfolding send_loop
  send_loop-append r i j [] ys s = refl
  send_loop-append r i j (f ∷ xs) ys s =
      >>=-last (stamp s.connection.rakhandler f r i j) _ _ _ λ stamped.
        >>=-last (enter b fparse now r _ (stamped.1)) _ _ _ λ s'. send_loop-append r i j xs ys s'

  -- The last frame behind an empty datagram.
  send_loop-one :
      (r : Reliability) (i j : Option ℕ) (f : Frame) (s : Sending) (k : ℕ)
      → s.outbound.frames ≡ []
      → room b fparse now s.connection ≡ k
      → Always (λ s'. Light (k + 4) s.connection s') (send_loop b fparse now r i j (f ∷ []) s)
  unfolding send_loop
  send_loop-one r i j f s k empty size =
      Always-behind (stamp s.connection.rakhandler f r i j) λ stamped.
        let c = record (s.connection) { rakhandler = stamped.0 } in
        let s' = note_fragment (record s { connection = c }) stamped.1.fragment_meta in
        let here : s'.connection ≡ c =
          connection-note_fragment (record s { connection = c }) stamped.1.fragment_meta in
        Always->>= (enter b fparse now r s' (stamped.1))
          (enter-Light r s' (stamped.1) k
            (ap (λ p. p.frames)
                (outbound-note_fragment (record s { connection = c }) stamped.1.fragment_meta)
              ∙ empty)
            (ap (λ x. room b fparse now x) here ∙ size))
          λ s'' (light, sends).
            Always-ok (light, (sends.0, sends.1 ∙ ap (λ x. x.sent ++ sends.0) here, sends.2))

  -- Frames that fill a datagram, and a last one.
  send_loop-Light :
      (r : Reliability) (i j : Option ℕ) (fs front : List Frame) (last : Frame) (s : Sending)
      (k : ℕ)
      → fs ≡ front ++ (last ∷ [])
      → All (λ f. k ≤ length f.body) front
      → s.outbound.frames ≡ []
      → room b fparse now s.connection ≡ k
      → Always (λ s'. Light (k + 4) s.connection s') (send_loop b fparse now r i j fs s)
  send_loop-Light r i j fs front last s k e large empty size =
      let P = Within (k + 4) in
      let first = send_loop-Emptied b fparse now only r i j k front s empty size large in
      let kept = send_loop-Keeps b fparse now r i j front s in
      rw (e, send_loop-append r i j front (last ∷ []) s)
        (Always->>=
          {P = λ s'.
            Emptied b fparse now s.connection s' × (core s'.connection ≡ core s.connection)}
          (send_loop b fparse now r i j front s)
          (record { has = λ s' h. (first.has s' h, kept.has s' h) })
          λ s' (emptied, same).
            Always-weaken
              (send_loop-one r i j last s' k emptied.0 (ap (λ x. room b fparse now x) same ∙ size))
              λ t (light, more). (
                light,
                Sends-trans P s.connection s'.connection t.connection
                    (SendsEmpty-Within (k + 4) s.connection s'.connection (omega arith) emptied.1)
                    more,
              ))

  -- The last datagram of `send_frames`.
  last-Within :
      (n : ℕ) (c : Connection) (s : Sending)
      → Light n c s
      → Always
          (λ d. Sends (Within n) c d)
          (send_packet b fparse now s.connection s.outbound >>= λ d. ok (free_all s.free d))
  unfolding send_packet send_immediate
  last-Within n c s (light, sends) =
      Always->>= (send_packet b fparse now s.connection s.outbound)
        (Always->>= {P = λ bytes. length bytes ≤ n} (fparse (FramePacket.parse b s.outbound))
          (record { has = λ bytes e. light.has bytes (only _ bytes e) })
          λ bytes h.
            Always-ok {P = λ d. Sends (Within n) s.connection d}
              ((s.connection.address, bytes) ∷ [], ground arith, (h, tt)))
        λ d more.
          let both = Sends-trans (Within n) c s.connection d sends more in
          Always-ok (both.0, sent-free_all s.free d ∙ both.1, both.2)

  send_frames-Within :
      (c : Connection) (fs front : List Frame) (last : Frame) (r : Reliability)
      → fs ≡ front ++ (last ∷ [])
      → All (λ f. room b fparse now c ≤ length f.body) front
      → Always (λ d. Sends (Within (room b fparse now c + 4)) c d) (send_frames b fparse now c fs r)
  unfolding send_frames send_some open_packet
  send_frames-Within c [] front last r e large = Always-ok (Sends-refl (Within _) c)
  send_frames-Within c (f ∷ fs) front last r e large =
      let n = room b fparse now c + 4 in
      Always->>= _
        (send_loop-Light r _ _ (f ∷ fs) front last _ (room b fparse now c) e large refl refl)
        λ s light. last-Within n c s light

  -- The fragments of a payload, with the new handler.
  split-Within :
      (c : Connection) (m : RakConnHandlerMeta) (r : Reliability) (id size : ℕ)
      (chunks : List (List ℕ))
      → IsCut (room b fparse now c) chunks
      → Always
          (λ d. Sends (Within (room b fparse now c + 4)) c d)
          (send_frames b fparse now (record c { rakhandler = m }) (labelled size id 0 chunks) r)
  unfolding send_frames
  split-Within c m r id size [] is = Always-ok (Sends-refl (Within _) c)
  split-Within c m r id size (x ∷ xs) is =
      let (front, last, e, large) = labelled-front (room b fparse now c) size id 0 x xs is in
      send_frames-Within (record c { rakhandler = m }) (labelled size id 0 (x ∷ xs)) front last r e
        large

  -- Whatever the payload below 4 GiB and the reliability, wherever `send_framed` returns, each datagram that
  -- it has sent has at most `mtu - 56` bytes. Here the MTU is above 60, and `fparse` gives bytes only where
  -- `parse` did.
  pub send_framed-Within :
      (c : Connection) (payload : List ℕ) (r : Reliability)
      → 60 < c.mtu
      → c.mtu < 2 ^ 16
      → length payload < 2 ^ 32
      → Always (λ d. Sends (Within (c.mtu - 56)) c d) (send_framed b fparse now c payload r)
  unfolding send_framed next_fragment_id
  send_framed-Within c payload r low high small =
      let k : room b fparse now c + 4 ≡ c.mtu - 56 = omega arith in
      let (m, id) = next_fragment_id c.rakhandler in
      let (chunks, e, whole, is) =
        partition_lem payload id (room b fparse now c) (omega arith) small in
      subst (λ n. Always (λ d. Sends (Within n) c d) (send_framed b fparse now c payload r)) k
        (Always-if (ltb (length payload) 60 || ltb (length payload - 60) c.mtu)
          (send_frames-Within c (record init { body = payload } ∷ []) [] _ r refl tt)
          (rw e (split-Within c m r id (length chunks) chunks is)))
