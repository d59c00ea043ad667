-- ===== src/Address.antt =====
-- src/internal/util.rs: the address tokens `<ip>:<port>` of connections. `ToSocketAddrs` and `Display` of
-- the standard library, which look up names and print numbers, are arguments.
use netrex_rak_net.Prelude.{ℕ, String, List, [], ◌∷◌, Option, none, some, Result, unwrap, ◌>>=◌}
use Prim.Native.String

-- `std::net::IpAddr`: four bytes, or the 128 bits of an IPv6 address.
pub data IpAddr : Type 0 where
  v4 : ℕ → ℕ → ℕ → ℕ → IpAddr
  v6 : ℕ → IpAddr

pub record SocketAddr : Type 0 where
  pub ip : IpAddr
  pub port : ℕ

-- What the two functions use of the standard library: `to_socket_addrs` of a text, if it can be read,
-- and the texts of an address and of a port.
pub record Resolver : Type 0 where
  pub to_socket_addrs : String → Option (List SocketAddr)
  pub ip_to_string : IpAddr → String
  pub port_to_string : ℕ → String

first : List SocketAddr → Option SocketAddr
first [] = none
first (a ∷ _) = some a

module _ (r : Resolver) where
  unfoldable pub to_address_token : SocketAddr → String
  to_address_token remote =
      String.◌++◌ (String.◌++◌ (r.ip_to_string remote.ip) ":") (r.port_to_string remote.port)

  -- `expect` on the outcome, and `unwrap` on its first address.
  unfoldable pub from_address_token : String → Result SocketAddr
  unfolding first
  from_address_token remote = unwrap (r.to_socket_addrs remote) >>= λ parsed. unwrap (first parsed)
