-- ===== src/Examples/Servers.antt =====
-- A server that takes a client, and one that drops a client.
use netrex_rak_net.Prelude.{
  ℕ, ◌≡◌, refl, List, [], ◌∷◌, String, true, Option, none, ok, All, ◌==◌, if◌then◌else◌,
}
use netrex_rak_net.Prelude.Names.{find}
use netrex_rak_net.Address.{Resolver, SocketAddr, v4, to_address_token}
use netrex_rak_net.Wire.{read_u8}
use netrex_rak_net.Wire.Reference.{reference}
use netrex_rak_net.Packet
use netrex_rak_net.Packet.{compose_payload}
use netrex_rak_net.Packet.Codecs.Reference.{reference_codecs}
use netrex_rak_net.Server.{RakEvent}
use netrex_rak_net.State
use netrex_rak_net.Connection
use netrex_rak_net.Connection.{Connection}
use netrex_rak_net.Connection.Closed.{shut}
use netrex_rak_net.Receive.{recv, handle, handle_with, tick}
use netrex_rak_net.Registry
use netrex_rak_net.Registry.{RakNetServer, RakResult, accept, emit, tick_client, tick_all}
use netrex_rak_net.Registry.Reachable.{start, next, accepted, AreClients, reachable-AreClients}
use netrex_rak_net.Registry.Settled.{Settled, tick_all-Settled}
use netrex_rak_net.Registry.Apart.{
  Arrival, Returns, accept_all, alone, recv_client, accept_all-alone,
}
use netrex_rak_net.Examples.Receives.{fresh, no_names}

abbrev remote : SocketAddr
remote = record { ip = v4 127 0 0 1; port = 19132 }

abbrev server : RakNetServer
server = Registry.new "0.0.0.0:19132" 0 7

abbrev with_client : RakNetServer
with_client = record server {
  connections =
      (
        "127.0.0.1:19132",
        record (Connection.new "127.0.0.1:19132" 0 10 7 "19132" server.version) { recv_time = 10 },
      )
      ∷ [];
}

-- An empty datagram makes a client too.
accept_empty :
    accept reference reference_codecs no_names (λ bytes. bytes) 10 server "19132" remote []
    ≡ ok with_client
unfolding Registry.new accept recv handle handle_with Packet.compose compose_payload
    reference_codecs read_u8 State.is_reliable Connection.new to_address_token
accept_empty = refl

reachable-AreClients_example : AreClients with_client.connections
reachable-AreClients_example =
    reachable-AreClients reference reference_codecs no_names (λ bytes. bytes) "0.0.0.0:19132" 0 7
      with_client (next start (accepted 10 "19132" remote [] accept_empty))

-- A client that was told to go.
abbrev gone : Connection
gone = record fresh { state = State.offline; ensure_disconnect = true; queue = shut }

abbrev with_gone : RakNetServer
with_gone = record server { connections = ("127.0.0.1:19132", gone) ∷ [] }

abbrev silent : String → ℕ → RakEvent → Option RakResult
silent address n event = none

tick_gone :
    tick_client reference reference_codecs no_names
      (λ bytes. bytes)
      20
      silent
      "127.0.0.1:19132"
      gone
    ≡ ok (none, [])
unfolding Connection.new tick_client tick emit State.is_reliable
tick_gone = refl

tick_all-Settled_example :
    (s : RakNetServer) × (out : List (SocketAddr × List ℕ)) × (tick_all reference reference_codecs
        no_names
        (λ bytes. bytes)
        20
        silent
        with_gone
      ≡ ok (s, out))
    × All (λ e. Settled e.1) s.connections
tick_all-Settled_example =
    tick_all-Settled reference reference_codecs no_names (λ bytes. bytes) 20 silent with_gone
      (refl, tt) (((none, []), tick_gone), tt)

abbrev two_names : Resolver
two_names = record no_names { port_to_string = λ port. if port == 19132 then "19132" else "19133" }

abbrev neighbour : SocketAddr
neighbour = record { ip = v4 127 0 0 1; port = 19133 }

-- The datagrams of two clients in turn: the first sends an empty one and one that is no packet.
abbrev in_turn : List Arrival
in_turn =
    record { time = 10; remote = remote; payload = [] }
    ∷ record { time = 11; remote = neighbour; payload = [] }
    ∷ record { time = 12; remote = remote; payload = 0x20 ∷ 1 ∷ [] }
    ∷ []

remote_Returns :
    Returns reference reference_codecs two_names
      (λ bytes. bytes)
      "19132"
      server
      in_turn
      "127.0.0.1:19132"
unfolding Registry.new alone recv_client recv handle handle_with Packet.compose compose_payload
    reference_codecs read_u8 State.is_reliable Connection.new to_address_token
remote_Returns = (_, refl)

neighbour_Returns :
    Returns reference reference_codecs two_names
      (λ bytes. bytes)
      "19132"
      server
      in_turn
      "127.0.0.1:19133"
unfolding Registry.new alone recv_client recv handle handle_with Packet.compose compose_payload
    reference_codecs read_u8 State.is_reliable Connection.new to_address_token
neighbour_Returns = (_, refl)

accept_all-alone_example :
    (s : RakNetServer) × (accept_all reference reference_codecs two_names
        (λ bytes. bytes)
        "19132"
        server
        in_turn
      ≡ ok s)
    × ((token : String)
        → alone reference reference_codecs two_names
            (λ bytes. bytes)
            "19132"
            server
            token
            (find token server.connections)
            in_turn
          ≡ ok (find token s.connections))
unfolding to_address_token
accept_all-alone_example =
    accept_all-alone reference reference_codecs two_names (λ bytes. bytes) "19132" in_turn server
      (remote_Returns, (neighbour_Returns, (remote_Returns, tt)))
