-- ===== src/State.antt =====
-- src/connection/state.rs: the states of a connection.
pub mod Kinds
use netrex_rak_net.Prelude.{String, Bool, true, false}

pub data ConnectionState : Type 0 where
  connecting connected timing_out disconnecting disconnected unidentified offline : ConnectionState

unfoldable pub is_reliable : ConnectionState → Bool
is_reliable disconnected = false
is_reliable timing_out = false
is_reliable offline = false
is_reliable _ = true

unfoldable pub is_available : ConnectionState → Bool
is_available connected = true
is_available connecting = true
is_available unidentified = true
is_available disconnecting = true
is_available _ = false

unfoldable pub is_connected : ConnectionState → Bool
is_connected connected = true
is_connected connecting = true
is_connected _ = false

-- `Display`.
unfoldable pub to_string : ConnectionState → String
to_string connecting = "Connecting"
to_string connected = "Connected"
to_string timing_out = "TimingOut"
to_string disconnecting = "Disconnecting"
to_string disconnected = "Disconnected"
to_string unidentified = "Unidentified"
to_string offline = "Offline"
