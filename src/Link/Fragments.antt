-- ===== src/Link/Fragments.antt =====
-- The receiving side of the queue's packets: what `recv` does with a datagram of one fragment.
use mathlib.Core.List.{Permᴰ, flatten}
use netrex_rak_net.Prelude.{
  ℕ, ◌≤◌, ◌≡◌, refl, sym, ap, subst, ◌∙◌, List, [], ◌∷◌, ◌++◌, some, none, Result, ok, arith,
  append-nil,
}
use netrex_rak_net.Prelude.Table.{get, insert}
use netrex_rak_net.Address.{Resolver}
use netrex_rak_net.Wire.{ByteOrder}
use netrex_rak_net.Server.{game_packet}
use netrex_rak_net.OrderedQueue
use netrex_rak_net.Frame.{Frame}
use netrex_rak_net.Frame.Carrier.{wire, fragment_frame}
use netrex_rak_net.Packet.{BinaryUtils}
use netrex_rak_net.Packet.Codecs.RoundTrip.{IsBinaryUtils}
use netrex_rak_net.Connection.{Connection}
use netrex_rak_net.Receive.{fine, handle_frame, receive_frame, recv}
use netrex_rak_net.Receive.Parts.{part}
use netrex_rak_net.Receive.Reassembled.{with, noted_one, whole, arrive-AreParts, and_then-fine}
use netrex_rak_net.Receive.Stale.{stale_fragment_repeats}
use netrex_rak_net.Link.{IsGame}
use netrex_rak_net.Tick.Queued.{CarriesFragment, fragment_carried}
use netrex_rak_net.Link.Received.{Handed, settled, handle_frame-game, recv-one}

-- The connection with the parts of a frame.
abbrev kept : Connection → ℕ → ℕ → Frame → List (ℕ × Frame) → Connection
kept c q id f parts =
    with c (noted_one (q, f) c.rakhandler.ack_counts)
      (insert id parts c.rakhandler.fragmented_frames)

-- The connection after a frame was made of what is kept under an id.
abbrev made : Connection → ℕ → ℕ → Frame → List (ℕ × Frame) → ℕ → List ℕ → Connection
made c q id f parts order payload =
    let c' = kept c q id f parts in
    record c' {
      rakhandler = record (c'.rakhandler) {
        ordered_channels = (OrderedQueue.insert c.rakhandler.ordered_channels payload order).0;
      };
      event_dispatch = c.event_dispatch ++ (game_packet c.address payload ∷ []);
    }

made-Handed :
    (c : Connection) (now q id order : ℕ) (f : Frame) (parts : List (ℕ × Frame)) (payload : List ℕ)
    → c.rakhandler.ordered_channels.scope.0 ≤ order
    → Handed c (settled (made (record c { recv_time = now }) q id f parts order payload)) payload
unfolding OrderedQueue.insert
made-Handed c now q id order f parts payload within = record {
  dispatched = ground arith;
  same_address = ground arith;
  same_sent = ground arith;
  settled_state = ground arith;
  same_start = ground arith;
}

kept-made :
    (c : Connection) (now q id order : ℕ) (f : Frame) (parts : List (ℕ × Frame)) (payload : List ℕ)
    → (settled (
        made
          (record c { recv_time = now })
          q
          id
          f
          parts
          order
          payload)).rakhandler.fragmented_frames
      ≡ insert id parts c.rakhandler.fragmented_frames
kept-made c now q id order f parts payload = ground arith

-- The only part of a payload, as it is kept.
abbrev pub IsOnlyPart : ℕ → List ℕ → Frame → Type 0
IsOnlyPart id payload g =
    (g.fragment_meta ≡ some (record { size = 1; id = id; index = 0 })) × (g.body ≡ payload)

module _ (b : ByteOrder) (u : BinaryUtils) (r : Resolver)
    (fparse : Result (List ℕ) → Result (List ℕ)) (now : ℕ) (laws : IsBinaryUtils u) where
  -- A fragment under an id of which nothing is kept.
  receive_frame-new :
      (c : Connection) (mtu q id message order : ℕ) (payload : List ℕ)
      → IsGame mtu payload
      → c.rakhandler.ordered_channels.scope.0 ≤ order
      → get id c.rakhandler.fragmented_frames ≡ none
      → let f = wire (fragment_frame id message order payload) in
        receive_frame b u r fparse now c q f ≡ fine (made c q id f (part f ∷ []) order payload)
  unfolding flatten
  receive_frame-new c mtu q id message order payload game within new =
      let f = wire (fragment_frame id message order payload) in
      sym (and_then-fine (receive_frame b u r fparse now c q f))
      ∙ (arrive-AreParts b u r fparse now c 1 id (payload ∷ []) (f ∷ []) [] (q, f) (refl, refl, tt)
            refl (Permᴰ.cons refl Permᴰ.nil) new
          ∙ (ap (λ p. handle_frame b u r fparse now (kept c q id f (part f ∷ [])) (whole f p))
                (append-nil payload)
              ∙ handle_frame-game b u r fparse now laws (kept c q id f (part f ∷ []))
                  (whole f payload) mtu order payload game within))

  -- A fragment under the id of a whole payload that was made before.
  receive_frame-stale :
      (c : Connection) (mtu q id message order : ℕ) (g : Frame) (payload : List ℕ)
      → IsGame mtu g.body
      → c.rakhandler.ordered_channels.scope.0 ≤ order
      → g.fragment_meta ≡ some (record { size = 1; id = id; index = 0 })
      → get id c.rakhandler.fragmented_frames ≡ some (part g ∷ [])
      → let f = wire (fragment_frame id message order payload) in
        receive_frame b u r fparse now c q f ≡ fine (made c q id f (part g ∷ []) order g.body)
  unfolding flatten
  receive_frame-stale c mtu q id message order g payload game within meta held =
      let f = wire (fragment_frame id message order payload) in
      stale_fragment_repeats b u r fparse now c 1 id q f (g.body ∷ []) (g ∷ []) (g ∷ [])
        (meta, refl, tt) refl (Permᴰ.cons refl Permᴰ.nil) held refl
      ∙ (ap (λ p. handle_frame b u r fparse now (kept c q id f (part g ∷ [])) (whole f p))
            (append-nil g.body)
          ∙ handle_frame-game b u r fparse now laws (kept c q id f (part g ∷ [])) (whole f g.body)
              mtu order g.body game within)

  -- The first datagram of an id is handed to the user, and its payload is kept.
  pub recv-fragment :
      (c : Connection) (mtu id : ℕ) (bytes payload : List ℕ)
      → IsGame mtu payload
      → CarriesFragment b c.rakhandler.ordered_channels.scope.0 id bytes payload
      → get id c.rakhandler.fragmented_frames ≡ none
      → (d : Connection) × (g : Frame) × (recv b u r fparse now c bytes ≡ ok d)
        × Handed c d payload
        × (d.rakhandler.fragmented_frames ≡ insert id (part g ∷ []) c.rakhandler.fragmented_frames)
        × IsOnlyPart id payload g
  recv-fragment c mtu id bytes payload game
        (fragment_carried rest q message order e composed within) new =
      let f = wire (fragment_frame id message order payload) in
      let opened : Connection = record c { recv_time = now } in
      let d = settled (made opened q id f (part f ∷ []) order payload) in
      (
        d,
        f,
        subst (λ bs. recv b u r fparse now c bs ≡ ok d) (sym e)
            (recv-one b u r fparse now laws c (made opened q id f (part f ∷ []) order payload) q f
              rest (rw e at composed)
              (receive_frame-new opened mtu q id message order payload game within new)),
        made-Handed c now q id order f (part f ∷ []) payload within,
        kept-made c now q id order f (part f ∷ []) payload,
        (refl, refl),
      )

  -- A later one under the same id makes the old payload be handed to the user again.
  pub recv-fragment_stale :
      (c : Connection) (mtu id : ℕ) (bytes payload old : List ℕ) (g : Frame)
      → IsGame mtu old
      → CarriesFragment b c.rakhandler.ordered_channels.scope.0 id bytes payload
      → get id c.rakhandler.fragmented_frames ≡ some (part g ∷ [])
      → IsOnlyPart id old g
      → (d : Connection) × (recv b u r fparse now c bytes ≡ ok d) × Handed c d old
  recv-fragment_stale c mtu id bytes payload old g game
        (fragment_carried rest q message order e composed within) held (meta, body) =
      let f = wire (fragment_frame id message order payload) in
      let opened : Connection = record c { recv_time = now } in
      let d = settled (made opened q id f (part g ∷ []) order g.body) in
      (
        d,
        subst (λ bs. recv b u r fparse now c bs ≡ ok d) (sym e)
            (recv-one b u r fparse now laws c (made opened q id f (part g ∷ []) order g.body) q f
              rest (rw e at composed)
              (receive_frame-stale opened mtu q id message order g payload
                (subst (IsGame mtu) (sym body) game) within meta held)),
        subst (Handed c d) body (made-Handed c now q id order f (part g ∷ []) g.body within),
      )
