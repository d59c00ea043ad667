-- ===== src/Registry/Settled.antt =====
-- What one round of ticks leaves of the clients.
use netrex_rak_net.Prelude.{
  ℕ, ◌≡◌, refl, ◌∙◌, String, Bool, true, false, List, [], ◌∷◌, ◌++◌, Option, none, some, ◌==◌,
  if◌then◌else◌, arith, All, Result, ok, Always, Always-ok, Always-behind, Always-test,
}
use netrex_rak_net.Prelude.Names.{
  same, same_refl, same-false, member, find, put, without, names, DistinctNames, All-without,
  find-All, find-without, find-put,
}
use netrex_rak_net.Address.{Resolver, SocketAddr}
use netrex_rak_net.Wire.{ByteOrder}
use netrex_rak_net.Queue.{Queue, flush, len, flush_normal, flush_low}
use netrex_rak_net.Server.{RakEvent}
use netrex_rak_net.Connection.{Connection}
use netrex_rak_net.Packet.{BinaryUtils}
use netrex_rak_net.Receive.{tick}
use netrex_rak_net.Registry.{RakResult, RakNetServer, emit, post, tick_client, tick_loop, tick_all}

-- A client that is not to be dropped, with nothing in its queue.
abbrev pub Settled : Connection → Type 0
Settled c = (c.ensure_disconnect ≡ false) × (len c.queue ≡ 0)

abbrev pub SettledIfKept : Option Connection → Type 0
SettledIfKept none = Unit
SettledIfKept (some c) = Settled c

len-flushed : (q : Queue (List ℕ)) → len ((flush q).0) ≡ 0
unfolding len flush flush_normal flush_low
len-flushed q = refl

abbrev DistinctList : List String → Type 0
DistinctList [] = Unit
DistinctList (n ∷ ns) = (member n ns ≡ false) × DistinctList ns

names-DistinctList : (m : List (String × Connection)) → DistinctNames m → DistinctList (names m)
names-DistinctList [] d = tt
names-DistinctList ((k, c) ∷ m) d = (d.0, names-DistinctList m d.1)

-- Every name is that of a client.
abbrev Found : List (String × Connection) → List String → Type 0
Found m [] = Unit
Found m (n ∷ ns) = ((c : Connection) × (find n m ≡ some c)) × Found m ns

Found-cons :
    (k : String) (c : Connection) (m : List (String × Connection)) (ns : List String)
    → Found m ns
    → Found ((k, c) ∷ m) ns
Found-cons k c m [] f = tt
Found-cons k c m (n ∷ ns) ((d, e), f) = (go (same k n), Found-cons k c m ns f)
  where
    go : (t : Bool) → (x : Connection) × ((if t then some c else find n m) ≡ some x)
    go true = (c, refl)
    go false = (d, e)

names-Found : (m : List (String × Connection)) → Found m (names m)
names-Found [] = tt
names-Found ((k, c) ∷ m) = ((c, rw (same_refl k) refl), Found-cons k c m (names m) (names-Found m))

-- Names that are not `n`.
not_member-head :
    (n k : String) (ns : List String)
    → member n (k ∷ ns) ≡ false
    → (same k n ≡ false) × (member n ns ≡ false)
not_member-head n k ns h = go (same k n) refl h
  where
    go :
        (t : Bool)
        → same k n ≡ t
        → (if t then true else member n ns) ≡ false
        → (same k n ≡ false) × (member n ns ≡ false)
    go true e h = absurd (cc)
    go false e h = (e, h)

-- A change of the clients that other names do not see.
Found-change :
    (n : String) (m m' : List (String × Connection)) (ns : List String)
    → ((k : String) → same n k ≡ false → find k m' ≡ find k m)
    → member n ns ≡ false
    → Found m ns
    → Found m' ns
Found-change n m m' [] same_else h f = tt
Found-change n m m' (k ∷ ns) same_else h ((c, e), f) =
    let (differs, rest) = not_member-head n k ns h in
    ((c, same_else k (same-false k n differs) ∙ e), Found-change n m m' ns same_else rest f)

All-member :
    (k : String) (ns : List String) (m : List (String × Connection))
    → All (λ e. member e.0 ns ≡ true) m
    → All (λ e. member e.0 (k ∷ ns) ≡ true) m
All-member k ns [] h = tt
All-member k ns (e ∷ m) h = (ground (arith, h.0), All-member k ns m h.1)

own_names : (m : List (String × Connection)) → All (λ e. member e.0 (names m) ≡ true) m
own_names [] = tt
own_names ((k, c) ∷ m) = (rw (same_refl k) refl, All-member k (names m) m (own_names m))

module _ (b : ByteOrder) (u : BinaryUtils) (r : Resolver)
    (fparse : Result (List ℕ) → Result (List ℕ)) (now : ℕ)
    (answer : String → ℕ → RakEvent → Option RakResult) where
  tick_client-Settled :
      (address : String) (c : Connection)
      → Always (λ done. SettledIfKept done.0) (tick_client b u r fparse now answer address c)
  unfolding tick_client
  tick_client-Settled address c = Always-behind (tick b u r fparse now c) λ d.
      Always-behind (emit (answer address) 0 d.event_dispatch (record d { event_dispatch = [] }))
        λ e.
          Always-test e.ensure_disconnect (λ off. Always-ok tt)
            λ on.
              Always-test (len e.queue == 0) (λ empty. Always-ok (on, ground (arith, empty)))
                λ full.
                  Always-behind (post b u r fparse now address ((flush e.queue).1))
                    λ out. Always-ok (on, len-flushed e.queue)

  abbrev pub Ticks : String × Connection → Type 0
  Ticks e =
      (done : Option Connection × List (SocketAddr × List ℕ)) × (tick_client b u r fparse now answer
          e.0 e.1
        ≡ ok done)

  -- A client that is still to be ticked can be, and the others are settled.
  Ready : List String → String × Connection → Type 0
  Ready ns e = (member e.0 ns ≡ true → Ticks e) × (member e.0 ns ≡ false → Settled e.1)

  Ready-other :
      (n : String) (ns : List String) (e : String × Connection)
      → same e.0 n ≡ false
      → Ready (n ∷ ns) e
      → Ready ns e
  unfolding Ready
  Ready-other n ns e differs (ticks, settled) =
      let other = same-false e.0 n differs in (λ h. ticks (rw other h), λ h. settled (rw other h))

  Ready-first :
      (ns : List String) (m : List (String × Connection))
      → All (λ e. member e.0 ns ≡ true) m
      → All Ticks m
      → All (Ready ns) m
  unfolding Ready
  Ready-first ns [] h t = tt
  Ready-first ns (e ∷ m) h t = ((λ is. t.0, λ is. absurd (cc)), Ready-first ns m h.1 t.1)

  Ready-none : (m : List (String × Connection)) → All (Ready []) m → All (λ e. Settled e.1) m
  unfolding Ready
  Ready-none [] h = tt
  Ready-none (e ∷ m) h = (h.0.1 refl, Ready-none m h.1)

  -- The clients after the one of the name `n` was ticked.
  after : String → Option Connection → List (String × Connection) → List (String × Connection)
  after n o m = elim o [ none ↦ without n m | some c ↦ put n c m ]

  after-Ready :
      (n : String) (ns : List String) (o : Option Connection) (m : List (String × Connection))
      → member n ns ≡ false
      → SettledIfKept o
      → Found m ns
      → All (Ready (n ∷ ns)) m
      → Found (after n o m) ns × All (Ready ns) (after n o m)
  unfolding after Ready
  after-Ready n ns none m d kept f h = (
    Found-change n m (without n m) ns (λ k differs. find-without n k m differs) d f,
    All-without (Ready (n ∷ ns)) (Ready ns) n m (Ready-other n ns) h,
  )
  after-Ready n ns (some c) m d kept f h = (
    Found-change n m (put n c m) ns (λ k differs. find-put n k c m differs) d f,
    (
      (λ e. absurd (cc), λ e. kept),
      All-without (Ready (n ∷ ns)) (Ready ns) n m (Ready-other n ns) h,
    ),
  )

  tick_loop-Settled :
      (ns : List String) (m : List (String × Connection)) (out : List (SocketAddr × List ℕ))
      → DistinctList ns
      → Found m ns
      → All (Ready ns) m
      → (m' : List (String × Connection)) × (out' : List (SocketAddr × List ℕ)) × (tick_loop b u r
            fparse now answer ns m out
          ≡ ok (m', out'))
        × All (λ e. Settled e.1) m'
  unfolding tick_loop after Ready
  tick_loop-Settled [] m out d f h = (m, out, refl, Ready-none m h)
  tick_loop-Settled (n ∷ ns) m out d ((c, e), f) h =
      let (done, ran) = (find-All (Ready (n ∷ ns)) n m c h e).0 (rw (same_refl n) refl) in
      let kept = (tick_client-Settled n c).has done ran in
      let (found, ready) = after-Ready n ns done.0 m d.0 kept f h in
      let (m', out', run, settled) =
        tick_loop-Settled ns (after n done.0 m) (out ++ done.1) d.1 found ready in
      (m', out', rw (e, ran) run, settled)

  -- If every client has a name of its own and the tick of each returns, the round of ticks returns too, so no
  -- client is missed. Behind it no client is left that is to be dropped, and none has a packet in its
  -- queue.
  pub tick_all-Settled :
      (s : RakNetServer)
      → DistinctNames s.connections
      → All Ticks s.connections
      → (s' : RakNetServer) × (out : List (SocketAddr × List ℕ)) × (tick_all b u r fparse now answer
            s
          ≡ ok (s', out))
        × All (λ e. Settled e.1) s'.connections
  unfolding tick_all
  tick_all-Settled s d t =
      let m = s.connections in
      let (m', out, run, settled) =
        tick_loop-Settled (names m) m [] (names-DistinctList m d) (names-Found m)
          (Ready-first (names m) m (own_names m) t) in
      (record s { connections = m' }, out, rw run refl, settled)
