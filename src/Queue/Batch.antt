-- ===== src/Queue/Batch.antt =====
-- What a batch of pushes leaves for the next flush.
use netrex_rak_net.Prelude.{
  ◌≡◌, refl, sym, ◌∙◌, true, false, List, [], ◌∷◌, ◌++◌, length, arith, append_assoc, append-nil,
  length-append,
}
use netrex_rak_net.Queue.{Queue, SendPriority, immediate, normal, low, empty, push, flush, len}

module _ {ℓ} {T : Type ℓ} where
  pub push_all : Queue T → List (T × SendPriority) → Queue T
  push_all q [] = q
  push_all q ((packet, priority) ∷ ps) = push_all (push q packet priority) ps

  -- The packets of one kind, in the order in which they were pushed.
  abbrev pub normals : List (T × SendPriority) → List T
  normals [] = []
  normals ((packet, normal) ∷ ps) = packet ∷ normals ps
  normals ((packet, low) ∷ ps) = normals ps
  normals ((packet, immediate) ∷ ps) = normals ps

  abbrev pub lows : List (T × SendPriority) → List T
  lows [] = []
  lows ((packet, low) ∷ ps) = packet ∷ lows ps
  lows ((packet, normal) ∷ ps) = lows ps
  lows ((packet, immediate) ∷ ps) = lows ps

  push_all-open :
      (ns ls : List T) (ps : List (T × SendPriority))
      → push_all (record { normal = ns; low = ls; frozen = false }) ps
        ≡ record { normal = ns ++ normals ps; low = ls ++ lows ps; frozen = false }
  unfolding push_all push
  push_all-open ns ls [] = simp append-nil
  push_all-open ns ls ((packet, normal) ∷ ps) =
      push_all-open (ns ++ (packet ∷ [])) ls ps ∙ simp append_assoc
  push_all-open ns ls ((packet, low) ∷ ps) =
      push_all-open ns (ls ++ (packet ∷ [])) ps ∙ simp append_assoc
  push_all-open ns ls ((packet, immediate) ∷ ps) = push_all-open ns ls ps

  -- After any pushes onto an open queue a flush returns what it held and was given at normal priority,
  -- in order, then what it held and was given at low priority, in order; packets of immediate
  -- priority are dropped. The queue is then empty and still open.
  pub flush-push_all :
      (q : Queue T) (ps : List (T × SendPriority))
      → q.frozen ≡ false
      → flush (push_all q ps) ≡ (empty, (q.normal ++ normals ps) ++ (q.low ++ lows ps))
  unfolding flush empty
  flush-push_all q ps h =
      let e : q ≡ record { normal = q.normal; low = q.low; frozen = false } = ground arith in
      rw (e, push_all-open q.normal q.low ps)

  -- A frozen queue takes nothing: after any pushes it is as it was.
  pub push_all_frozen :
      (q : Queue T) (ps : List (T × SendPriority)) → q.frozen ≡ true → push_all q ps ≡ q
  unfolding push_all push
  push_all_frozen q [] h = refl
  push_all_frozen q ((packet, priority) ∷ ps) h = simp h (push_all_frozen q ps h)

  -- `len` is the number of packets that the next flush returns, and is 0 behind that flush.
  pub len-flush : (q : Queue T) → (len q ≡ length (flush q).1) × (len (flush q).0 ≡ 0)
  unfolding len flush
  len-flush q = (sym (length-append q.normal q.low), refl)
