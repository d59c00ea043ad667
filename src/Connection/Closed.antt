-- ===== src/Connection/Closed.antt =====
-- When a connection is closed, as `disconnect` leaves it, and what a call may do to that.
use netrex_rak_net.Prelude.{
  ℕ, true, false, List, [], ◌≡◌, refl, ap, ◌∙◌, ◌⊎◌, inl, inr, Result, Always, Always-weaken,
}
use netrex_rak_net.Queue.{Queue, SendPriority, push, flush}
use netrex_rak_net.Connection.{Connection}
use netrex_rak_net.Connection.Core.{core, Keeps}

-- A frozen queue without packets.
abbrev pub shut : Queue (List ℕ)
shut = record { normal = []; low = []; frozen = true }

-- The server is to drop the connection, and no packet waits in it or can be pushed.
abbrev pub IsClosed : Connection → Type 0
IsClosed c = (c.ensure_disconnect ≡ true) × (c.queue ≡ shut)

-- The server is not to drop the connection, or it is closed.
abbrev pub IsSound : Connection → Type 0
IsSound c = (c.ensure_disconnect ≡ false) ⊎ IsClosed c

-- The second connection is closed, or it is to be dropped just where the first is and its queue is shut
-- where that of the first is.
abbrev pub Closes : Connection → Connection → Type 0
Closes c d =
    IsClosed d ⊎ ((d.ensure_disconnect ≡ c.ensure_disconnect) × (c.queue ≡ shut → d.queue ≡ shut))

-- The second connection has the address of the first, and is not open where the first is closed.
abbrev pub Follows : Connection → Connection → Type 0
Follows c d = (d.address ≡ c.address) × Closes c d

pub Follows-refl : (c : Connection) → Follows c c
Follows-refl c = (refl, inr (refl, λ e. e))

Closes-trans : (c d e : Connection) → Closes c d → Closes d e → Closes c e
Closes-trans c d e f (inl closed) = inl closed
Closes-trans c d e (inl (flag, queue)) (inr (g, h)) = inl (g ∙ flag, h queue)
Closes-trans c d e (inr (g, h)) (inr (g', h')) = inr (g' ∙ g, λ q. h' (h q))

pub Follows-trans : (c d e : Connection) → Follows c d → Follows d e → Follows c e
Follows-trans c d e (same, f) (same', g) = (same' ∙ same, Closes-trans c d e f g)

pub Follows-core : (c d : Connection) → core d ≡ core c → Follows c d
Follows-core c d e =
    (ap (λ x. x.address) e, inr (ap (λ x. x.ensure_disconnect) e, λ q. ap (λ x. x.queue) e ∙ q))

Closes-IsClosed : (c d : Connection) → IsClosed c → Closes c d → IsClosed d
Closes-IsClosed c d h (inl closed) = closed
Closes-IsClosed c d (flag, queue) (inr (g, k)) = (g ∙ flag, k queue)

pub Follows-IsClosed : (c d : Connection) → IsClosed c → Follows c d → IsClosed d
Follows-IsClosed c d h (same, f) = Closes-IsClosed c d h f

Closes-IsSound : (c d : Connection) → IsSound c → Closes c d → IsSound d
Closes-IsSound c d h (inl closed) = inr closed
Closes-IsSound c d (inl alive) (inr (g, k)) = inl (g ∙ alive)
Closes-IsSound c d (inr closed) (inr f) = inr (Closes-IsClosed c d closed (inr f))

pub Follows-IsSound : (c d : Connection) → IsSound c → Follows c d → IsSound d
Follows-IsSound c d h (same, f) = Closes-IsSound c d h f

pub Follows-push :
    (c : Connection) (bytes : List ℕ) (priority : SendPriority)
    → Follows c (record c { queue = push c.queue bytes priority })
unfolding push
Follows-push c bytes priority = (refl, inr (refl, λ e. rw e refl))

pub flush-shut : (q : Queue (List ℕ)) → q ≡ shut → (flush q).0 ≡ shut
unfolding flush
flush-shut q e = rw e refl

pub Keeps-Follows :
    (c : Connection) {m : Result Connection} → Keeps c m → Always (λ d. Follows c d) m
Keeps-Follows c h = Always-weaken h λ d e. Follows-core c d e
