-- ===== src/Motd.antt =====
-- src/protocol/mcpe/motd.rs: the message of the day, and the one that a connection starts with.
pub mod Text
use netrex_rak_net.Prelude.{ℕ, String}

pub data Gamemode : Type 0 where
  survival creative adventure spectator : Gamemode

pub record Motd : Type 0 where
  pub name : String
  pub protocol : ℕ
  pub version : String
  pub player_count : ℕ
  pub player_max : ℕ
  pub gamemode : Gamemode
  pub server_guid : ℕ
  pub port : String
  pub ipv6_port : String

unfoldable pub new : ℕ → String → Motd
new server_guid port = record {
  name = "Netrex Server";
  protocol = 448;
  version = "1.18.0";
  player_count = 10;
  player_max = 100;
  gamemode = survival;
  server_guid = server_guid;
  port = port;
  ipv6_port = "19133";
}
