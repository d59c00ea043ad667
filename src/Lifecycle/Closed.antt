-- ===== src/Lifecycle/Closed.antt =====
-- A connection that is closed stays so, whatever is called on it.
use netrex_rak_net.Prelude.{ℕ, refl, false, String, List, Result, inl, subst}
use netrex_rak_net.Address.{Resolver}
use netrex_rak_net.Wire.{ByteOrder}
use netrex_rak_net.Packet.{BinaryUtils}
use netrex_rak_net.Server.{RakNetVersion}
use netrex_rak_net.Connection
use netrex_rak_net.Connection.{Connection, send, send_immediate}
use netrex_rak_net.Connection.Closed.{
  IsClosed, IsSound, Follows, Follows-refl, Follows-trans, Follows-IsClosed, Follows-IsSound,
  Follows-push,
}
use netrex_rak_net.Prelude.{Bool, true}
use netrex_rak_net.Queue.{normal}
use netrex_rak_net.Protocol.Closing.{send_packet-Follows, disconnect-Follows, send_stream-Follows}
use netrex_rak_net.Receive.Closing.{recv-Follows, tick-Follows}
use netrex_rak_net.Lifecycle.{
  Step, received, ticked, sent, streamed, packet_sent, disconnected, Reach, here, then,
}

send-Follows :
    (c : Connection) (stream : List ℕ) (instant : Bool) → Follows c (send c stream instant)
unfolding send send_immediate
send-Follows c stream true = Follows-refl c
send-Follows c stream false = Follows-push c stream normal

module _ (b : ByteOrder) (u : BinaryUtils) (r : Resolver)
    (fparse : Result (List ℕ) → Result (List ℕ)) where
  step-Follows : {c d : Connection} → Step b u r fparse c d → Follows c d
  step-Follows {c} {d} (received now payload e) = (recv-Follows b u r fparse now c payload).has d e
  step-Follows {c} {d} (ticked now e) = (tick-Follows b u r fparse now c).has d e
  step-Follows {c} {d} (sent stream instant e) =
      subst (λ x. Follows c x) e (send-Follows c stream instant)
  step-Follows {c} {d} (streamed now stream priority e) =
      (send_stream-Follows b u r fparse now c stream priority).has d e
  step-Follows {c} {d} (packet_sent now packet priority e) =
      (send_packet-Follows b u r fparse now c packet priority).has d e
  step-Follows {c} {d} (disconnected now reason server_initiated e) =
      (disconnect-Follows b u r fparse now c reason server_initiated).has d e

  Reach-Follows : {c d : Connection} → Reach b u r fparse c d → Follows c d
  Reach-Follows {c} here = Follows-refl c
  Reach-Follows {c} {d = d} (then {d = e} way step) =
      Follows-trans c e d (Reach-Follows way) (step-Follows step)

  -- After a connection was marked to be dropped with its queue frozen and empty, no sequence of calls of
  -- `recv`, `tick`, `send`, `send_stream`, `send_packet` and `disconnect` that return undoes that.
  pub Reach-IsClosed : (c d : Connection) → IsClosed c → Reach b u r fparse c d → IsClosed d
  Reach-IsClosed c d is way = Follows-IsClosed c d is (Reach-Follows way)

  -- Of a connection made by `new`, after any such calls: where it is marked to be dropped, its queue is
  -- frozen and empty.
  pub reachable-IsSound :
      (address : String) (start_time now server_guid : ℕ) (port : String) (version : RakNetVersion)
      (d : Connection)
      → Reach b u r fparse (Connection.new address start_time now server_guid port version) d
      → IsSound d
  unfolding Connection.new
  reachable-IsSound address start_time now server_guid port version d way =
      Follows-IsSound (Connection.new address start_time now server_guid port version) d (inl refl)
        (Reach-Follows way)
