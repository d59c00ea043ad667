-- ===== src/Receive/Reassembled.antt =====
-- `handle_raw_frame` on the fragments of one frame that arrive in any order: the frame is made when the
-- last of them is there, with the payload that the sender split.
use mathlib.Core.List.{Permᴰ, flatten}
use netrex_rak_net.Prelude.{
  ℕ, ◌+◌, ◌^◌, ◌<◌, ◌≡◌, refl, sym, subst, ◌∙◌, true, false, List, [], ◌∷◌, ◌++◌, map, length, ◌==◌,
  if◌then◌else◌, none, some, ok, ok_injective, err, panic, stuck, arith, All, append_assoc,
  length-append, length-map,
}
use netrex_rak_net.Prelude.Table.{get, insert, contains_key, Distinct, get-insert}
use netrex_rak_net.Meta.{NumberSet}
use netrex_rak_net.Frame.{Frame, partition, is_fragmented}
use netrex_rak_net.Frame.Partition.{partition_lem, labelled}
use netrex_rak_net.Connection.{Connection}
use netrex_rak_net.Reliability.{is_reliable}
use netrex_rak_net.Address.{Resolver}
use netrex_rak_net.Wire.{ByteOrder}
use netrex_rak_net.Packet.{BinaryUtils}
use netrex_rak_net.Prelude.{Result}
use netrex_rak_net.Receive.{
  Handled, fine, and_then, receive_frame, handle_frame, collect, note_reliable, reassemble,
}
use netrex_rak_net.Receive.Parts.{
  part, IsPart, AreParts, AreParts-length, AreParts-IsPart, AreParts-Distinct, reassemble-AreParts,
  All-Perm, Perm-length, insert-append, insert_twice, Distinct-middle, index_of,
}

-- The connection with these numbers kept for ACKs and these parts of frames.
abbrev pub with : Connection → NumberSet → List (ℕ × List (ℕ × Frame)) → Connection
with c s t = record c {
  rakhandler = record (c.rakhandler) { ack_counts = s; fragmented_frames = t };
}

abbrev pub noted_one : ℕ × Frame → NumberSet → NumberSet
noted_one (q, f) s = if is_reliable f.reliability then insert q tt s else s

-- The numbers kept for ACKs after these frames, each with the number of its datagram.
abbrev pub noted : List (ℕ × Frame) → NumberSet → NumberSet
noted [] s = s
noted (e ∷ es) s = noted es (noted_one e s)

abbrev pub frames : List (ℕ × Frame) → List Frame
frames es = map (λ e. e.1) es

abbrev pub held_at : ℕ → List (ℕ × List (ℕ × Frame)) → List (ℕ × Frame)
held_at id t = elim (get id t) [ none ↦ [] | some parts ↦ parts ]

abbrev pub whole : Frame → List ℕ → Frame
whole f body = record f { body = body; fragment_meta = none }

-- The frames have, one by one, the bodies and the fragment numbers of those that were sent. The other
-- fields are what the sender put there.
abbrev pub Carry : List Frame → List Frame → Type 0
Carry [] [] = Unit
Carry [] (f ∷ fs) = ⊥
Carry (g ∷ gs) [] = ⊥
Carry (g ∷ gs) (f ∷ fs) = (f.fragment_meta ≡ g.fragment_meta) × (f.body ≡ g.body) × Carry gs fs

labelled-AreParts :
    (n id i : ℕ) (chunks : List (List ℕ)) (fs : List Frame)
    → Carry (labelled n id i chunks) fs
    → AreParts n id i chunks fs
labelled-AreParts n id i [] [] h = tt
labelled-AreParts n id i [] (f ∷ fs) h = absurd h
labelled-AreParts n id i (c ∷ cs) [] h = absurd h
labelled-AreParts n id i (c ∷ cs) (f ∷ fs) (m, e, h) =
    (m, e, labelled-AreParts n id (i + 1) cs fs h)

pub and_then-fine : (h : Handled) → and_then h fine ≡ h
and_then-fine (ok (c, none)) = refl
and_then-fine (ok (c, some e)) = refl
and_then-fine (err e) = refl
and_then-fine panic = refl
and_then-fine stuck = refl

held_at-insert :
    (id : ℕ) (p : List (ℕ × Frame)) (t : List (ℕ × List (ℕ × Frame)))
    → held_at id (insert id p t) ≡ p
held_at-insert id p t = rw (held_at, get-insert id id p t) (ground arith)

module _ (b : ByteOrder) (u : BinaryUtils) (r : Resolver)
    (fparse : Result (List ℕ) → Result (List ℕ)) (now : ℕ) where
  -- Frames that arrive one after another, each in the datagram of the number beside it.
  abbrev pub arrive : Connection → List (ℕ × Frame) → Handled
  arrive c [] = fine c
  arrive c ((q, f) ∷ es) = and_then (receive_frame b u r fparse now c q f) λ c'. arrive c' es

  module _ (c : Connection) (n id q : ℕ) (f : Frame) (s : NumberSet)
      (t : List (ℕ × List (ℕ × Frame))) (is : IsPart n id f) where
    note_reliable-with :
        note_reliable b u r fparse now (with c s t) q f ≡ with c (noted_one (q, f) s) t
    unfolding note_reliable
    note_reliable-with = ground arith

    pub receive_frame-collect :
        receive_frame b u r fparse now (with c s t) q f
        ≡ collect b u r fparse now
            (with c (noted_one (q, f) s) t)
            f
            (record { size = n; id = id; index = index_of f })
    unfolding receive_frame is_fragmented
    receive_frame-collect = rw (← note_reliable-with) (rw is refl)

    module _ (held : List (ℕ × Frame)) (at : held_at id t ≡ held)
        (new : contains_key (index_of f) held ≡ false) where
      receive_frame_early :
          length held + 1 < n
          → receive_frame b u r fparse now (with c s t) q f
            ≡ fine (with c (noted_one (q, f) s) (insert id (held ++ (part f ∷ [])) t))
      unfolding collect
      receive_frame_early h =
          receive_frame-collect
          ∙ (let short : (length held == n) ≡ false = ground arith in
              let full : (length (held ++ (part f ∷ [])) == n) ≡ false =
                ground (arith, length-append held (part f ∷ [])) in
              rw (at, short, insert-append (index_of f) f held new, full) refl)

      receive_frame_last :
          length held + 1 ≡ n
          → receive_frame b u r fparse now (with c s t) q f
            ≡ handle_frame b u r fparse now
                (with c (noted_one (q, f) s) (insert id (held ++ (part f ∷ [])) t))
                (whole f (reassemble (held ++ (part f ∷ []))))
      unfolding collect
      receive_frame_last h =
          receive_frame-collect
          ∙ (let short : (length held == n) ≡ false = ground arith in
              let full : (length (held ++ (part f ∷ [])) == n) ≡ true =
                ground (arith, length-append held (part f ∷ [])) in
              rw (at, short, insert-append (index_of f) f held new, full) refl)

  -- The parts that are kept and those that arrive are the parts of one frame, none of them twice.
  arrive_each :
      (c : Connection) (n id : ℕ) (front : List (ℕ × Frame)) (last : ℕ × Frame) (s : NumberSet)
      (t : List (ℕ × List (ℕ × Frame))) (held : List (ℕ × Frame))
      → held_at id t ≡ held
      → All (IsPart n id) (frames (front ++ (last ∷ [])))
      → Distinct (held ++ map part (frames (front ++ (last ∷ []))))
      → length held + length front + 1 ≡ n
      → arrive (with c s t) (front ++ (last ∷ []))
        ≡ handle_frame b u r fparse now
            (with c
              (noted (front ++ (last ∷ [])) s)
              (insert id (held ++ map part (frames (front ++ (last ∷ [])))) t))
            (whole (last.1) (reassemble (held ++ map part (frames (front ++ (last ∷ []))))))
  arrive_each c n id [] (q, f) s t held at is d count =
      and_then-fine _
      ∙ receive_frame_last c n id q f s t is.0 held at (Distinct-middle (index_of f) f held [] d)
          (omega arith)
  arrive_each c n id ((q, f) ∷ front) last s t held at is d count =
      let rest = map part (frames (front ++ (last ∷ []))) in
      let held' = held ++ (part f ∷ []) in
      let joined : held' ++ rest ≡ held ++ (part f ∷ rest) = append_assoc held (part f ∷ []) rest in
      rw
        (receive_frame_early c n id q f s t is.0 held at
          (Distinct-middle (index_of f) f held rest d) (omega arith))
        (arrive_each c n id front last (noted_one (q, f) s) (insert id held' t) held'
            (held_at-insert id held' t) is.1 (rw joined d)
            (omega (arith, length-append held (part f ∷ [])))
          ∙ rw (joined, insert_twice id (held ++ (part f ∷ rest)) held' t) refl)

  pub arrive-AreParts :
      (c : Connection) (n id : ℕ) (chunks : List (List ℕ)) (fs : List Frame)
      (front : List (ℕ × Frame)) (last : ℕ × Frame)
      → AreParts n id 0 chunks fs
      → length chunks ≡ n
      → Permᴰ (frames (front ++ (last ∷ []))) fs
      → get id c.rakhandler.fragmented_frames ≡ none
      → arrive c (front ++ (last ∷ []))
        ≡ handle_frame b u r fparse now
            (with c
              (noted (front ++ (last ∷ [])) c.rakhandler.ack_counts)
              (insert id (map part (frames (front ++ (last ∷ [])))) c.rakhandler.fragmented_frames))
            (whole (last.1) (flatten chunks))
  arrive-AreParts c n id chunks fs front last is count p new =
      let all = All-Perm (IsPart n id) p (AreParts-IsPart n id 0 chunks fs is) in
      let size : length front + 1 ≡ n = omega (
        arith,
        length-append front (last ∷ []),
        length-map (front ++ (last ∷ [])) (λ e. e.1),
        Perm-length p,
        AreParts-length n id 0 chunks fs is,
      ) in
      arrive_each c n id front last c.rakhandler.ack_counts c.rakhandler.fragmented_frames []
        (rw (held_at, new) refl) all (AreParts-Distinct n id 0 chunks fs is p) (omega arith)
      ∙ rw (reassemble-AreParts n id 0 chunks fs is p) refl

  -- A payload below 4 GiB is split by `partition` with a fragment size above 0 under an id of which
  -- nothing is kept, and frames with those bodies and fragment numbers arrive one after another, each
  -- once, in any order and in any datagrams. Then the last to arrive is handled as a frame that is not
  -- split and whose body is the payload, and before it nothing else is done than to keep the parts and
  -- the numbers of the datagrams to acknowledge.
  pub reassembled_in_any_order :
      (c : Connection) (stream : List ℕ) (id k : ℕ) (split fs : List Frame)
      (front : List (ℕ × Frame)) (last : ℕ × Frame)
      → 0 < k
      → length stream < 2 ^ 32
      → partition stream id k ≡ ok split
      → Carry split fs
      → Permᴰ (frames (front ++ (last ∷ []))) fs
      → get id c.rakhandler.fragmented_frames ≡ none
      → arrive c (front ++ (last ∷ []))
        ≡ handle_frame b u r fparse now
            (with c
              (noted (front ++ (last ∷ [])) c.rakhandler.ack_counts)
              (insert id (map part (frames (front ++ (last ∷ [])))) c.rakhandler.fragmented_frames))
            (whole (last.1) stream)
  reassembled_in_any_order c stream id k split fs front last h small done carry p new =
      let (chunks, cut, joined, is) = partition_lem stream id k h small in
      let sent =
        ok_injective {x = split} {y = labelled (length chunks) id 0 chunks} (sym done ∙ cut) in
      let are =
        labelled-AreParts (length chunks) id 0 chunks fs (subst (λ g. Carry g fs) sent carry) in
      arrive-AreParts c (length chunks) id chunks fs front last are refl p new ∙ rw joined refl
