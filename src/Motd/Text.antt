-- ===== src/Motd/Text.antt =====
-- src/protocol/mcpe/motd.rs, `Motd::write`, `compose` and `parse`: the message of the day as a text of
-- twelve parts between semicolons. `Streamable` for `String` of the crate `binary_utils` is an argument.
pub mod RoundTrip
use Prim.Native.Char.{Char, code}
use Prim.Native.String
use Prim.Native.String.{String}
use netrex_rak_net.Prelude
use netrex_rak_net.Prelude.{
  ℕ, zero, suc, ◌+◌, ◌-◌, ◌^◌, Bool, true, false, List, [], ◌∷◌, Option, none, some, ◌==◌,
  if◌then◌else◌, Result, ok, err, expect, unwrap, recoverable_known,
}
use netrex_rak_net.Wire.{Reader}
use netrex_rak_net.Decimal.{to_string, parse_unsigned}
use netrex_rak_net.Packet.Codecs.{Codec}
use netrex_rak_net.Motd.{Motd, Gamemode, survival, creative, adventure, spectator}

-- `Gamemode::as_str`.
abbrev pub as_str : Gamemode → String
as_str survival = "Survival"
as_str creative = "Creative"
as_str adventure = "Adventure"
as_str spectator = "Spectator"

-- `Display` of a gamemode.
abbrev pub gamemode_to_string : Gamemode → String
gamemode_to_string survival = "0"
gamemode_to_string creative = "1"
gamemode_to_string adventure = "2"
gamemode_to_string spectator = "3"

-- `join(";")`.
unfoldable pub join : List String → String
join [] = ""
join (w ∷ []) = w
join (w ∷ v ∷ ws) = String.◌++◌ w (String.◌∷◌ ";" (join (v ∷ ws)))

prepend : Char → List String → List String
prepend c [] = String.◌∷◌ c "" ∷ []
prepend c (w ∷ ws) = String.◌∷◌ c w ∷ ws

-- `split(";")`.
unfoldable pub split : String → List String
unfolding prepend
split String.[] = "" ∷ []
split (String.◌∷◌ c s) = let rest = split s in if code c == 59 then "" ∷ rest else prepend c rest

-- `props`, in `write`.
abbrev pub props : Motd → List String
props m =
    "MCPE"
    ∷ m.name
    ∷ to_string m.protocol
    ∷ m.version
    ∷ to_string m.player_count
    ∷ to_string m.player_max
    ∷ to_string m.server_guid
    ∷ "Netrex"
    ∷ as_str m.gamemode
    ∷ "1"
    ∷ m.port
    ∷ m.ipv6_port
    ∷ []

unfoldable pub write : Motd → String
write m = join (props m)

-- `parts.get(n).ok_or(..)`.
part : ℕ → List String → String → Result String
part n [] message = err (recoverable_known message)
part zero (w ∷ ws) message = ok w
part (suc n) (w ∷ ws) message = part n ws message

-- `parse::<u16>().expect(..)` and its like.
number : ℕ → String → Result ℕ
number max s = unwrap (parse_unsigned max s)

-- The `match` on the number of the gamemode.
abbrev pub gamemode_of : ℕ → Gamemode
gamemode_of n =
    if n == 0
    then survival
    else if n == 1
    then creative
    else if n == 2
    then adventure
    else if n == 3
    then spectator
    else survival

-- `compose` on the parts of the text.
unfoldable pub of_parts : List String → Result Motd
unfolding part number
of_parts parts = Prelude.◌>>=◌ (part 1 parts "Invalid motd name") λ name.
    Prelude.◌>>=◌ (part 2 parts "Invalid motd protocol") λ protocol.
      Prelude.◌>>=◌ (part 3 parts "Invalid motd version") λ version.
        Prelude.◌>>=◌ (part 4 parts "Invalid motd player count") λ player_count.
          Prelude.◌>>=◌ (part 5 parts "Invalid motd player maxmium") λ player_max.
            Prelude.◌>>=◌ (part 6 parts "Invalid motd server guid") λ server_guid.
              Prelude.◌>>=◌ (part 7 parts "Invalid motd software name") λ software.
                Prelude.◌>>=◌ (part 8 parts "Invalid motd gamemode string") λ gamemode_name.
                  Prelude.◌>>=◌ (part 9 parts "Invalid motd gamemode") λ gamemode.
                    Prelude.◌>>=◌ (part 10 parts "Invalid motd port") λ port.
                      Prelude.◌>>=◌ (part 11 parts "Invalid motd port") λ ipv6_port.
                        Prelude.◌>>=◌ (number (2 ^ 16 - 1) protocol) λ protocol_number.
                          Prelude.◌>>=◌ (number (2 ^ 16 - 1) player_count) λ count.
                            Prelude.◌>>=◌ (number (2 ^ 16 - 1) player_max) λ max.
                              Prelude.◌>>=◌ (number (2 ^ 64 - 1) server_guid) λ guid.
                                Prelude.◌>>=◌ (number (2 ^ 8 - 1) gamemode) λ mode. ok (record {
                                  name = name;
                                  protocol = protocol_number;
                                  version = version;
                                  player_count = count;
                                  player_max = max;
                                  gamemode = gamemode_of mode;
                                  server_guid = guid;
                                  port = port;
                                  ipv6_port = ipv6_port;
                                })

module _ (text : Codec String) where
  unfoldable pub compose : Reader Motd
  compose source position =
      Prelude.◌>>=◌ (text.compose source position)
        λ read. Prelude.◌>>=◌ (of_parts (split read.0)) λ motd. ok (motd, read.1)

  unfoldable pub parse : Motd → Result (List ℕ)
  parse m = text.parse (write m)
