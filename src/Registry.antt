-- ===== src/Registry.antt =====
-- src/server/tokio.rs, `RakNetServer`, and what the tasks of `start` do in one round each, under the lock of
-- the connections: a message to send is taken, a datagram is received, the clients are ticked. What is
-- sent to the socket is the second component of a tick; the answer of the listener is an argument.
pub mod Settled
pub mod Reachable
pub mod Undone
pub mod Apart
use netrex_rak_net.Prelude.{
  ℕ, ◌+◌, String, Bool, true, false, List, [], ◌∷◌, ◌++◌, Option, none, some, ◌==◌, ◌≡◌,
  if◌then◌else◌, Result, ok, panic, unwrap, ◌>>=◌,
}
use netrex_rak_net.Prelude.Names.{find, put, without, names}
use netrex_rak_net.Address.{Resolver, SocketAddr, to_address_token, from_address_token}
use netrex_rak_net.Wire.{ByteOrder}
use netrex_rak_net.State.{offline}
use netrex_rak_net.Queue.{immediate, normal, flush, len}
use netrex_rak_net.Motd.{Motd}
use netrex_rak_net.Server.{RakNetVersion, v10, RakEvent}
use netrex_rak_net.Connection
use netrex_rak_net.Connection.{Connection}
use netrex_rak_net.Packet.{BinaryUtils}
use netrex_rak_net.Send.{send_stream}
use netrex_rak_net.Receive.{recv, is_disconnected, tick}

pub data RakResult : Type 0 where
  motd : Motd → RakResult
  error : String → RakResult
  disconnect : String → RakResult

pub record RakNetServer : Type 0 where
  pub address : String
  pub version : RakNetVersion
  pub connections : List (String × Connection)
  pub start_time : ℕ
  pub server_guid : ℕ
  pub stop : Bool

-- `RakNetServer::new`, with the time and the random number.
unfoldable pub new : String → ℕ → ℕ → RakNetServer
new address now guid = record {
  address = address;
  version = v10;
  connections = [];
  start_time = now;
  server_guid = guid;
  stop = false;
}

-- What `start` does before its tasks: the server's address must be read, and its port is kept as a text. How
-- the standard library reads a `SocketAddr` is an argument.
unfoldable pub start : Resolver → (String → Option SocketAddr) → RakNetServer → Result String
start r parse s = unwrap (parse s.address) >>= λ address. ok (r.port_to_string address.port)

-- The listener's answer to the n-th event of a client, and the rest of the events.
unfoldable pub answered :
    Option RakResult → Connection → (Connection → Result Connection) → Result Connection
answered none c rest = rest c
answered (some (motd v)) c rest = rest (record c { motd = v })
answered (some (error v)) c rest = panic
answered (some (disconnect v)) c rest = ok (record c { state = offline })

-- The loop over the events of a client.
unfoldable pub emit :
    (ℕ → RakEvent → Option RakResult) → ℕ → List RakEvent → Connection → Result Connection
emit answer n [] c = ok c
emit answer n (event ∷ events) c = answered (answer n event) c λ c'. emit answer (n + 1) events c'

module _ (b : ByteOrder) (u : BinaryUtils) (r : Resolver)
    (fparse : Result (List ℕ) → Result (List ℕ)) (now : ℕ) where
  -- The task of the packets that the user sends. One for an unknown client is dropped.
  unfoldable pub deliver : RakNetServer → String → List ℕ → Bool → Result RakNetServer
  deliver s address buf instant = elim (find address s.connections) [
    | none ↦ ok s
    | some c ↦ send_stream b fparse now c buf (if instant then immediate else normal) >>= λ c'.
        ok (record s { connections = put address c' s.connections })
  ]

  -- The task that receives, with the server's port as a text. A new client is entered under its token.
  unfoldable pub accept : RakNetServer → String → SocketAddr → List ℕ → Result RakNetServer
  accept s port remote payload =
      let token = to_address_token r remote in
      let c : Connection = elim (find token s.connections) [
        | some known ↦ known
        | none ↦ Connection.new token s.start_time now s.server_guid port s.version
      ] in
      recv b u r fparse now c payload >>= λ c'.
      ok (record s { connections = put token c' s.connections })

  -- The task of the packets that are sent at once. An error of `send_to` is only logged.
  unfoldable pub relay : String × List ℕ → Result (SocketAddr × List ℕ)
  relay (address, bytes) = from_address_token r address >>= λ remote. ok (remote, bytes)

  -- The packets of a client's queue go to its address.
  unfoldable pub post : String → List (List ℕ) → Result (List (SocketAddr × List ℕ))
  post address [] = ok []
  post address (packet ∷ packets) = from_address_token r address >>= λ remote.
      post address packets >>= λ rest. ok ((remote, packet) ∷ rest)

  module _ (answer : String → ℕ → RakEvent → Option RakResult) where
    -- One client in the loop of ticks: it is kept or removed, and its packets are sent.
    unfoldable pub tick_client :
        String → Connection → Result (Option Connection × List (SocketAddr × List ℕ))
    tick_client address c = tick b u r fparse now c >>= λ d.
        emit (answer address) 0 d.event_dispatch (record d { event_dispatch = [] }) >>= λ e.
        if is_disconnected b u r fparse now e
        then ok (none, [])
        else if len e.queue == 0
        then ok (some e, [])
        else (let (queue, packets) = flush e.queue in
            post address packets >>= λ out. ok (some (record e { queue = queue }), out))

    -- `for (addr, _) in clients.clone().iter()`.
    unfoldable pub tick_loop :
        List String
        → List (String × Connection)
        → List (SocketAddr × List ℕ)
        → Result (List (String × Connection) × List (SocketAddr × List ℕ))
    tick_loop [] clients out = ok (clients, out)
    tick_loop (address ∷ rest) clients out = unwrap (find address clients) >>= λ c.
        tick_client address c >>= λ done.
        tick_loop rest
          (elim done.0 [ none ↦ without address clients | some c' ↦ put address c' clients ])
          (out ++ done.1)

    unfoldable pub tick_all : RakNetServer → Result (RakNetServer × List (SocketAddr × List ℕ))
    tick_all s = tick_loop (names s.connections) s.connections [] >>= λ done.
        ok (record s { connections = done.0 }, done.1)
