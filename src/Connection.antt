-- ===== src/Connection.antt =====
-- src/connection/conn.rs: the state of a connection, and its ways to send. What was sent to the channel
-- `send_channel` is kept in order in `sent`; the outcome of such a send is ignored by the source. Times
-- are in milliseconds, and the current time is an argument.
pub mod Core
pub mod Closed
use netrex_rak_net.Prelude.{
  ℕ, ◌+◌, ◌-◌, ◌%◌, ◌^◌, String, Bool, false, List, [], ◌∷◌, ◌++◌, if◌then◌else◌,
}
use netrex_rak_net.State.{ConnectionState, unidentified}
use netrex_rak_net.Motd
use netrex_rak_net.Motd.{Motd}
use netrex_rak_net.Server.{RakNetVersion, RakEvent}
use netrex_rak_net.Queue.{Queue, push, normal, empty as empty_queue}
use netrex_rak_net.Meta
use netrex_rak_net.Meta.{RakConnHandlerMeta}

pub record Connection : Type 0 where
  pub address : String
  pub state : ConnectionState
  pub mtu : ℕ
  pub recv_time : ℕ
  pub start_time : ℕ
  pub raknet_version : RakNetVersion
  pub motd : Motd
  pub server_guid : ℕ
  pub queue : Queue (List ℕ)
  pub sent : List (String × List ℕ)
  pub event_dispatch : List RakEvent
  pub rakhandler : RakConnHandlerMeta
  pub ensure_disconnect : Bool

-- `Connection::new`.
unfoldable pub new : String → ℕ → ℕ → ℕ → String → RakNetVersion → Connection
new address start_time now server_guid port raknet_version = record {
  address = address;
  state = unidentified;
  mtu = 1400;
  recv_time = now;
  start_time = start_time;
  raknet_version = raknet_version;
  motd = Motd.new server_guid port;
  server_guid = server_guid;
  queue = empty_queue;
  sent = [];
  event_dispatch = [];
  rakhandler = Meta.new;
  ensure_disconnect = false;
}

-- `mtu as usize - 60` wraps in 64 bits, the `u16` `mtu - 60` in 16.
unfoldable pub max_frame_size : Connection → ℕ
max_frame_size c = (c.mtu + 2 ^ 64 - 60) % 2 ^ 64

unfoldable pub send_immediate : Connection → List ℕ → Connection
send_immediate c stream = record c { sent = c.sent ++ ((c.address, stream) ∷ []) }

unfoldable pub send : Connection → List ℕ → Bool → Connection
send c stream instant =
    if instant then send_immediate c stream else record c { queue = push c.queue stream normal }
