-- ===== src/Connection/Core.antt =====
-- What of a connection the handler leaves as it was when it sends: all but its own counters and stores and
-- what is sent on the channel.
use netrex_rak_net.Prelude.{
  ℕ, Bool, true, false, List, [], Option, none, some, if◌then◌else◌, ◌≡◌, refl, Result, Always,
}
use netrex_rak_net.Meta
use netrex_rak_net.Connection.{Connection, send, send_immediate}

-- The connection with an empty handler and nothing sent.
abbrev pub core : Connection → Connection
core c = record c { rakhandler = Meta.new; sent = [] }

-- Wherever the call returns, the connection has the same core.
abbrev pub Keeps : Connection → Result Connection → Type 0
Keeps c m = Always (λ c'. core c' ≡ core c) m

pub core-send : (c : Connection) (stream : List ℕ) → core (send c stream true) ≡ core c
unfolding send send_immediate
core-send c stream = refl

module _ (d : Connection) where
  pub core-if :
      (t : Bool) (x y : Connection)
      → core x ≡ core d
      → core y ≡ core d
      → core (if t then x else y) ≡ core d
  core-if true x y h g = h
  core-if false x y h g = g

  pub core-option :
      {A : Type 0} (o : Option A) (x : Connection) (f : A → Connection)
      → core x ≡ core d
      → ((a : A) → core (f a) ≡ core d)
      → core (elim o [ none ↦ x | some a ↦ f a ]) ≡ core d
  core-option none x f h g = h
  core-option (some a) x f h g = g a
