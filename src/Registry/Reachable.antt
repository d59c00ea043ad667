-- ===== src/Registry/Reachable.antt =====
-- The clients of a server, whatever its tasks do one after another.
use netrex_rak_net.Prelude.{
  ℕ, ◌+◌, ◌≡◌, refl, ◌∙◌, inl, inr, String, Bool, List, [], ◌∷◌, ◌++◌, Option, none, some, ◌==◌,
  if◌then◌else◌, All, Result, ok, Always, Always-ok, Always-panic, Always-behind, Always->>=,
  Always-test, Always-unwrap, Always-option,
}
use netrex_rak_net.Prelude.Names.{
  find, put, without, names, DistinctNames, DistinctNames-without, member-without, All-without,
  find-All,
}
use netrex_rak_net.Address.{Resolver, SocketAddr, to_address_token}
use netrex_rak_net.Wire.{ByteOrder}
use netrex_rak_net.Queue.{immediate, normal, flush, len}
use netrex_rak_net.Server.{RakEvent}
use netrex_rak_net.Connection
use netrex_rak_net.Connection.{Connection}
use netrex_rak_net.Connection.Closed.{IsSound, Follows, Follows-trans, Follows-IsSound, flush-shut}
use netrex_rak_net.Packet.{BinaryUtils}
use netrex_rak_net.Send.{send_stream}
use netrex_rak_net.Protocol.Closing.{send_stream-Follows}
use netrex_rak_net.Receive.{recv, tick}
use netrex_rak_net.Receive.Closing.{recv-Follows, tick-Follows}
use netrex_rak_net.Registry.{
  RakResult, RakNetServer, motd, error, disconnect, answered, emit, deliver, accept, post,
  tick_client, tick_loop, tick_all,
}
use netrex_rak_net.Registry

-- A client stands under its address, and where it is to be dropped its queue is frozen and empty.
abbrev pub IsClient : String × Connection → Type 0
IsClient e = (e.1.address ≡ e.0) × IsSound e.1

-- Each name stands once, with a client of that address.
abbrev pub AreClients : List (String × Connection) → Type 0
AreClients m = DistinctNames m × All IsClient m

AreClients-without :
    (k : String) (m : List (String × Connection)) → AreClients m → AreClients (without k m)
AreClients-without k m (d, h) =
    (DistinctNames-without k m d, All-without IsClient IsClient k m (λ e differs is. is) h)

AreClients-put :
    (k : String) (c : Connection) (m : List (String × Connection))
    → IsClient (k, c)
    → AreClients m
    → AreClients (put k c m)
AreClients-put k c m is h =
    let (d, all) = AreClients-without k m h in ((member-without k m, d), (is, all))

IsClient-Follows : (k : String) (c d : Connection) → Follows c d → IsClient (k, c) → IsClient (k, d)
IsClient-Follows k c d f (at, sound) = (f.0 ∙ at, Follows-IsSound c d sound f)

Follows-flushed : (c : Connection) → Follows c (record c { queue = (flush c.queue).0 })
Follows-flushed c = (refl, inr (refl, λ e. flush-shut c.queue e))

answered-Follows :
    (c d : Connection) (o : Option RakResult) (rest : Connection → Result Connection)
    → Follows c d
    → ((e : Connection) → Follows c e → Always (λ x. Follows c x) (rest e))
    → Always (λ x. Follows c x) (answered o d rest)
unfolding answered
answered-Follows c d none rest f h = h d f
answered-Follows c d (some (motd v)) rest f h = h (record d { motd = v }) f
answered-Follows c d (some (error v)) rest f h = Always-panic
answered-Follows c d (some (disconnect v)) rest f h = Always-ok f

emit-Follows :
    (answer : ℕ → RakEvent → Option RakResult) (n : ℕ) (events : List RakEvent) (c d : Connection)
    → Follows c d
    → Always (λ x. Follows c x) (emit answer n events d)
unfolding emit
emit-Follows answer n [] c d f = Always-ok f
emit-Follows answer n (event ∷ events) c d f =
    answered-Follows c d (answer n event) (λ e. emit answer (n + 1) events e) f
      λ e g. emit-Follows answer (n + 1) events c e g

IsClient-chosen :
    (k : String) (fresh : Connection) (o : Option Connection)
    → IsClient (k, fresh)
    → ((c : Connection) → o ≡ some c → IsClient (k, c))
    → IsClient (k, elim o [ some known ↦ known | none ↦ fresh ])
IsClient-chosen k fresh none is h = is
IsClient-chosen k fresh (some c) is h = h c refl

module _ (b : ByteOrder) (u : BinaryUtils) (r : Resolver)
    (fparse : Result (List ℕ) → Result (List ℕ)) where
  -- A round of one of the server's tasks, that returns.
  pub data ServerStep : RakNetServer → RakNetServer → Type 0 where
    delivered :
        {s s' : RakNetServer} (now : ℕ) (address : String) (buf : List ℕ) (instant : Bool)
        → deliver b u r fparse now s address buf instant ≡ ok s'
        → ServerStep s s'
    accepted :
        {s s' : RakNetServer} (now : ℕ) (port : String) (remote : SocketAddr) (payload : List ℕ)
        → accept b u r fparse now s port remote payload ≡ ok s'
        → ServerStep s s'
    round :
        {s s' : RakNetServer} (now : ℕ) (answer : String → ℕ → RakEvent → Option RakResult)
        (out : List (SocketAddr × List ℕ))
        → tick_all b u r fparse now answer s ≡ ok (s', out)
        → ServerStep s s'

  pub data ServerReach (s : RakNetServer) : RakNetServer → Type 0 where
    start : ServerReach s s
    next : {t v : RakNetServer} → ServerReach s t → ServerStep t v → ServerReach s v

  module _ (now : ℕ) where
    deliver-AreClients :
        (s : RakNetServer) (address : String) (buf : List ℕ) (instant : Bool)
        → AreClients s.connections
        → Always (λ s'. AreClients s'.connections) (deliver b u r fparse now s address buf instant)
    unfolding deliver
    deliver-AreClients s address buf instant h =
        let priority = if instant then immediate else normal in
        Always-option (find address s.connections) (Always-ok h) λ c e.
          Always->>= (send_stream b fparse now c buf priority)
            (send_stream-Follows b u r fparse now c buf priority)
            λ c' f. Always-ok (
              AreClients-put address c' s.connections
                (IsClient-Follows address c c' f (find-All IsClient address s.connections c h.1 e))
                h)

    accept-AreClients :
        (s : RakNetServer) (port : String) (remote : SocketAddr) (payload : List ℕ)
        → AreClients s.connections
        → Always (λ s'. AreClients s'.connections) (accept b u r fparse now s port remote payload)
    unfolding accept Connection.new
    accept-AreClients s port remote payload h =
        let token = to_address_token r remote in
        let fresh = Connection.new token s.start_time now s.server_guid port s.version in
        let c : Connection = elim (find token s.connections) [
          | some known ↦ known
          | none ↦ fresh
        ] in
        let is =
          IsClient-chosen token fresh (find token s.connections) (refl, inl refl)
            (λ d e. find-All IsClient token s.connections d h.1 e) in
        Always->>= (recv b u r fparse now c payload) (recv-Follows b u r fparse now c payload)
          λ c' f.
            Always-ok (AreClients-put token c' s.connections (IsClient-Follows token c c' f is) h)

    module _ (answer : String → ℕ → RakEvent → Option RakResult) where
      FollowsIfKept : Connection → Option Connection → Type 0
      FollowsIfKept c none = Unit
      FollowsIfKept c (some d) = Follows c d

      tick_client-Follows :
          (k : String) (c : Connection)
          → Always (λ done. FollowsIfKept c done.0) (tick_client b u r fparse now answer k c)
      unfolding tick_client FollowsIfKept
      tick_client-Follows k c =
          Always->>= (tick b u r fparse now c) (tick-Follows b u r fparse now c) λ d f.
            Always->>= (emit (answer k) 0 d.event_dispatch (record d { event_dispatch = [] }))
              (emit-Follows (answer k) 0 d.event_dispatch c (record d { event_dispatch = [] }) f)
              λ e g.
                Always-test e.ensure_disconnect (λ off. Always-ok tt)
                  λ on.
                    Always-test (len e.queue == 0) (λ empty. Always-ok g)
                      λ full. Always-behind (post b u r fparse now k ((flush e.queue).1)) λ out.
                        Always-ok (
                          Follows-trans c e (record e { queue = (flush e.queue).0 }) g
                            (Follows-flushed e))

      after-AreClients :
          (k : String) (c : Connection) (o : Option Connection) (m : List (String × Connection))
          → IsClient (k, c)
          → FollowsIfKept c o
          → AreClients m
          → AreClients (elim o [ none ↦ without k m | some c' ↦ put k c' m ])
      unfolding FollowsIfKept
      after-AreClients k c none m is f h = AreClients-without k m h
      after-AreClients k c (some d) m is f h = AreClients-put k d m (IsClient-Follows k c d f is) h

      tick_loop-AreClients :
          (ns : List String) (m : List (String × Connection)) (out : List (SocketAddr × List ℕ))
          → AreClients m
          → Always (λ done. AreClients done.0) (tick_loop b u r fparse now answer ns m out)
      unfolding tick_loop
      tick_loop-AreClients [] m out h = Always-ok h
      tick_loop-AreClients (k ∷ ns) m out h = Always-unwrap (find k m) λ c e.
          Always->>= (tick_client b u r fparse now answer k c) (tick_client-Follows k c) λ done f.
            tick_loop-AreClients ns _ (out ++ done.1)
              (after-AreClients k c done.0 m (find-All IsClient k m c h.1 e) f h)

      tick_all-AreClients :
          (s : RakNetServer)
          → AreClients s.connections
          → Always (λ done. AreClients done.0.connections) (tick_all b u r fparse now answer s)
      unfolding tick_all
      tick_all-AreClients s h =
          Always->>= (tick_loop b u r fparse now answer (names s.connections) s.connections [])
            (tick_loop-AreClients (names s.connections) s.connections [] h) λ done is. Always-ok is

  step-AreClients :
      {s s' : RakNetServer} → ServerStep s s' → AreClients s.connections → AreClients s'.connections
  step-AreClients {s} {s'} (delivered now address buf instant e) h =
      (deliver-AreClients now s address buf instant h).has s' e
  step-AreClients {s} {s'} (accepted now port remote payload e) h =
      (accept-AreClients now s port remote payload h).has s' e
  step-AreClients {s} {s'} (round now answer out e) h =
      (tick_all-AreClients now answer s h).has (s', out) e

  reach-AreClients :
      {s s' : RakNetServer}
      → ServerReach s s'
      → AreClients s.connections
      → AreClients s'.connections
  reach-AreClients start h = h
  reach-AreClients (next way step) h = step-AreClients step (reach-AreClients way h)

  -- On a server made by `new`, after any rounds of its tasks: each client stands once, under its own
  -- address, and where it is to be dropped its queue is frozen and empty.
  pub reachable-AreClients :
      (address : String) (now guid : ℕ) (s : RakNetServer)
      → ServerReach (Registry.new address now guid) s
      → AreClients s.connections
  unfolding Registry.new
  reachable-AreClients address now guid s way = reach-AreClients way (tt, tt)
