-- ===== src/Server.antt =====
-- src/server/tokio.rs: the version and the events that a connection names.
use netrex_rak_net.Prelude.{ℕ, String, List}
use netrex_rak_net.Motd.{Motd}

pub data RakNetVersion : Type 0 where
  v10 v6 : RakNetVersion

unfoldable pub to_u8 : RakNetVersion → ℕ
to_u8 v10 = 10
to_u8 v6 = 6

pub data RakEvent : Type 0 where
  connection_created : String → RakEvent
  disconnect : String → String → RakEvent
  motd : String → Motd → RakEvent
  game_packet : String → List ℕ → RakEvent
  error : String → RakEvent
  complex_binary_error : String → List ℕ → String → RakEvent

-- `RakEvent::get_name`.
unfoldable pub get_name : RakEvent → String
get_name (connection_created _) = "ConnectionCreated"
get_name (disconnect _ _) = "Disconnect"
get_name (game_packet _ _) = "GamePacket"
get_name (motd _ _) = "Motd"
get_name (error _) = "Error"
get_name (complex_binary_error _ _ _) = "ComplexBinaryError"
