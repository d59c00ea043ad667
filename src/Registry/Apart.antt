-- ===== src/Registry/Apart.antt =====
-- The datagrams of several clients, one after another: what the server holds of each client.
use mathlib.Core.Path.{subst}
use text.Mathlib.TextEquality.{eq_iff}
use netrex_rak_net.Prelude.{
  ℕ, ◌≡◌, refl, sym, ap, ◌∙◌, String, Bool, true, false, List, [], ◌∷◌, Option, none, some, ◌⊎◌,
  inl, inr, if◌then◌else◌, All, Result, ok, ◌>>=◌, returns,
}
use netrex_rak_net.Prelude.Names.{found_in_put, same, same_refl, find, put}
use netrex_rak_net.Address.{Resolver, SocketAddr, to_address_token}
use netrex_rak_net.Wire.{ByteOrder}
use netrex_rak_net.Connection
use netrex_rak_net.Connection.{Connection}
use netrex_rak_net.Packet.{BinaryUtils}
use netrex_rak_net.Receive.{recv}
use netrex_rak_net.Registry.{RakNetServer, accept}

pub record Arrival : Type 0 where
  pub time : ℕ
  pub remote : SocketAddr
  pub payload : List ℕ

-- A datagram that is, or is not, of a client's token.
abbrev turn :
    Bool
    → Result Connection
    → Option Connection
    → (Option Connection → Result (Option Connection))
    → Result (Option Connection)
turn true taken o later = taken >>= λ c. later (some c)
turn false taken o later = later o

module _ (b : ByteOrder) (u : BinaryUtils) (r : Resolver)
    (fparse : Result (List ℕ) → Result (List ℕ)) (port : String) where
  -- The rounds of the task that receives.
  unfoldable pub accept_all : RakNetServer → List Arrival → Result RakNetServer
  accept_all s [] = ok s
  accept_all s (a ∷ rest) =
      accept b u r fparse a.time s port a.remote a.payload >>= λ s'. accept_all s' rest

  unfoldable pub recv_client :
      RakNetServer → String → Option Connection → Arrival → Result Connection
  recv_client s token o a =
      let c : Connection = elim o [
        | some known ↦ known
        | none ↦ Connection.new token s.start_time a.time s.server_guid port s.version
      ] in
      recv b u r fparse a.time c a.payload

  -- One connection by itself: it takes the datagrams of its token, and is made by the first where there is none.
  unfoldable pub alone :
      RakNetServer → String → Option Connection → List Arrival → Result (Option Connection)
  unfolding recv_client
  alone s token o [] = ok o
  alone s token o (a ∷ rest) =
      turn (same (to_address_token r a.remote) token) (recv_client s token o a) o
        λ o'. alone s token o' rest

  -- The connection of a token returns, by itself, on all arrivals.
  abbrev pub Returns : RakNetServer → List Arrival → String → Type 0
  Returns s arrivals token =
      (o : Option Connection) × (alone s token (find token s.connections) arrivals ≡ ok o)

  -- A token with no datagram is left as it was.
  arrives :
      (s : RakNetServer) (token : String) (o : Option Connection) (P : String → Type 0)
      (arrivals : List Arrival)
      → All (λ a. P (to_address_token r a.remote)) arrivals
      → (alone s token o arrivals ≡ ok o) ⊎ P token
  unfolding alone
  arrives s token o P [] h = inl refl
  arrives s token o P (a ∷ rest) h =
      go (same (to_address_token r a.remote) token) refl (arrives s token o P rest h.1)
    where
      go :
          (x : Bool)
          → same (to_address_token r a.remote) token ≡ x
          → (alone s token o rest ≡ ok o) ⊎ P token
          → (turn x (recv_client s token o a) o (λ o'. alone s token o' rest) ≡ ok o) ⊎ P token
      go true e later = inr (subst P ((eq_iff (to_address_token r a.remote) token).0 e) h.0)
      go false e later = later

  -- Behind the datagram that made a connection `c`, each client has as much to take as it had before.
  behind :
      (s : RakNetServer) (a : Arrival) (rest : List Arrival) (c : Connection) (token : String)
      → recv_client s
          (to_address_token r a.remote)
          (find (to_address_token r a.remote) s.connections)
          a
        ≡ ok c
      → alone s token (find token s.connections) (a ∷ rest)
        ≡ alone s token (find token (put (to_address_token r a.remote) c s.connections)) rest
  unfolding alone
  behind s a rest c token taken =
      let t = to_address_token r a.remote in
      subst
        (λ found.
          turn (same t token) (recv_client s token (find token s.connections) a)
            (find token s.connections) (λ o'. alone s token o' rest)
          ≡ alone s token found rest)
        (sym (found_in_put t token c s.connections)) (go (same t token) refl)
    where
      go :
          (x : Bool)
          → same (to_address_token r a.remote) token ≡ x
          → turn x
              (recv_client s token (find token s.connections) a)
              (find token s.connections)
              (λ o'. alone s token o' rest)
            ≡ alone s token (if x then some c else find token s.connections) rest
      go true e =
          let there : recv_client s token (find token s.connections) a ≡ ok c =
            subst (λ k. recv_client s k (find k s.connections) a ≡ ok c)
              ((eq_iff (to_address_token r a.remote) token).0 e) taken in
          rw there refl
      go false e = refl

  all_alone :
      (arrivals : List Arrival) (s : RakNetServer)
      → ((token : String) → Returns s arrivals token)
      → (s' : RakNetServer) × (accept_all s arrivals ≡ ok s')
        × ((token : String)
            → alone s token (find token s.connections) arrivals ≡ ok (find token s'.connections))
  unfolding accept_all alone accept recv_client
  all_alone [] s h = (s, refl, λ token. refl)
  all_alone (a ∷ rest) s h =
      let t = to_address_token r a.remote in
      let (o, whole) = h t in
      let (c, taken, after) =
        returns (recv_client s t (find t s.connections) a) (λ c. alone s t (some c) rest) o
          (subst
            (λ x.
              turn x (recv_client s t (find t s.connections) a) (find t s.connections)
                (λ o'. alone s t o' rest)
              ≡ ok o)
            (same_refl t) whole) in
      let s1 : RakNetServer = record s { connections = put t c s.connections } in
      let (s', accepted, held) =
        all_alone rest s1 (λ k. ((h k).0, sym (behind s a rest c k taken) ∙ (h k).1)) in
      (
        s',
        ap
              (λ m. (m >>= λ d. ok (record s { connections = put t d s.connections })) >>= λ s2.
                accept_all s2 rest)
              taken
            ∙ accepted,
        λ k. behind s a rest c k taken ∙ held k,
      )

  -- Datagrams come to a server, from clients in any order. For each, the connection of its sender, taken by
  -- itself, returns on all datagrams of that sender in their order, where the first makes it if the server had none.
  -- Then the server takes them all, and what it holds of a token behind them is, for every token, what the
  -- connection is that took the datagrams of that token by itself.
  pub accept_all-alone :
      (arrivals : List Arrival) (s : RakNetServer)
      → All (λ a. Returns s arrivals (to_address_token r a.remote)) arrivals
      → (s' : RakNetServer) × (accept_all s arrivals ≡ ok s')
        × ((token : String)
            → alone s token (find token s.connections) arrivals ≡ ok (find token s'.connections))
  accept_all-alone arrivals s h = all_alone arrivals s (λ token.
      elim (arrives s token (find token s.connections) (Returns s arrivals) arrivals h) [
        | inl same_as_before ↦ (find token s.connections, same_as_before)
        | inr returned ↦ returned
      ])
