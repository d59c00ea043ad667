-- ===== src/Lifecycle.antt =====
-- The life of a connection: the calls that change it one after another, src/connection/conn.rs.
pub mod Closed
use netrex_rak_net.Prelude.{ℕ, ◌≡◌, String, Bool, List, Result, ok}
use netrex_rak_net.Address.{Resolver}
use netrex_rak_net.Wire.{ByteOrder}
use netrex_rak_net.Queue.{SendPriority}
use netrex_rak_net.Packet.{BinaryUtils, Packet}
use netrex_rak_net.Connection.{Connection, send}
use netrex_rak_net.Send.{send_stream}
use netrex_rak_net.Protocol.{send_packet, disconnect}
use netrex_rak_net.Receive.{recv, tick}

module _ (b : ByteOrder) (u : BinaryUtils) (r : Resolver)
    (fparse : Result (List ℕ) → Result (List ℕ)) where
  -- A call of one of the methods of a connection that are public, and that returns.
  pub data Step : Connection → Connection → Type 0 where
    received :
        {c c' : Connection} (now : ℕ) (payload : List ℕ)
        → recv b u r fparse now c payload ≡ ok c'
        → Step c c'
    ticked : {c c' : Connection} (now : ℕ) → tick b u r fparse now c ≡ ok c' → Step c c'
    sent :
        {c c' : Connection} (stream : List ℕ) (instant : Bool)
        → send c stream instant ≡ c'
        → Step c c'
    streamed :
        {c c' : Connection} (now : ℕ) (stream : List ℕ) (priority : SendPriority)
        → send_stream b fparse now c stream priority ≡ ok c'
        → Step c c'
    packet_sent :
        {c c' : Connection} (now : ℕ) (packet : Packet) (priority : SendPriority)
        → send_packet b u r fparse now c packet priority ≡ ok c'
        → Step c c'
    disconnected :
        {c c' : Connection} (now : ℕ) (reason : String) (server_initiated : Bool)
        → disconnect b u r fparse now c reason server_initiated ≡ ok c'
        → Step c c'

  -- Calls one after another.
  pub data Reach (c : Connection) : Connection → Type 0 where
    here : Reach c c
    then : {d e : Connection} → Reach c d → Step d e → Reach c e
