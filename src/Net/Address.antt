-- ===== src/Net/Address.antt =====
-- `Address` of include/arc/net/address.h, and `Domain` of include/arc/net/utils.h.
use libarc.Prelude.{
  ℕ, Bool, true, false, Option, none, some, [], ◌==◌, if◌then◌else◌, Outcome, ok, throws, Exception,
}
use libarc.Prelude.Bytes.{Bytes}

pub data Domain : Type 0 where
  unspec unix ipv4 ipv6 : Domain

-- AF_UNSPEC, AF_UNIX, AF_INET and AF_INET6.
abbrev pub number : Domain → ℕ
number Domain.unspec = 0
number Domain.unix = 1
number Domain.ipv4 = 2
number Domain.ipv6 = 10

-- A `sockaddr_in` or `sockaddr_in6`: the port is in network order, and the host a number. The last
-- two fields, `sin6_flowinfo` and `sin6_scope_id`, are only in the latter, and 0 in the former.
pub record CAddress : Type 0 where
  pub family : ℕ
  pub port : ℕ
  pub ip : ℕ
  pub flowinfo : ℕ
  pub scope_id : ℕ

-- The functions of the system library. `getaddrinfo` gives the first result.
pub record Resolver : Type 0 where
  pub htons : ℕ → ℕ
  pub ntohs : ℕ → ℕ
  pub inet_pton : Domain → Bytes → Option ℕ
  pub inet_ntop : Domain → ℕ → Bytes
  pub getaddrinfo : Domain → Bytes → (port : ℕ) → Option CAddress

pub record Address : Type 0 where
  pub is_valid : Bool
  pub host : Bytes
  pub port : ℕ
  pub addr : CAddress

abbrev pub no_c_address : CAddress
no_c_address = record { family = 0; port = 0; ip = 0; flowinfo = 0; scope_id = 0 }

unfoldable pub no_address : Address
no_address = record { is_valid = false; host = []; port = 0; addr = no_c_address }

-- `Init`, where `this` is the address as it is before.
unfoldable pub init_address : Resolver → Domain → (this : Address) → CAddress → Outcome Address
init_address r af this addr =
    if number af == addr.family
    then ok (elim af [
      | Domain.ipv4 ↦ record {
        is_valid = true;
        host = r.inet_ntop Domain.ipv4 addr.ip;
        port = r.ntohs addr.port;
        addr = addr;
      }
      | Domain.ipv6 ↦ record {
        is_valid = true;
        host = r.inet_ntop Domain.ipv6 addr.ip;
        port = r.ntohs addr.port;
        addr = addr;
      }
      | Domain.unix ↦ record this { is_valid = false; addr = addr }
      | Domain.unspec ↦ record this { is_valid = false; addr = addr }
    ])
    else throws Exception.address_exception

abbrev pub init_first : Resolver → Domain → (this : Address) → Option CAddress → Outcome Address
init_first r af this none = throws Exception.address_exception
init_first r af this (some addr) = init_address r af this addr

unfoldable pub init_dns_address :
    Resolver → Domain → (this : Address) → (host : Bytes) → (port : ℕ) → Outcome Address
init_dns_address r af this host port = init_first r af this (r.getaddrinfo af host port)

-- The address as it is when a host is not numeric.
abbrev pub unresolved : Resolver → (host : Bytes) → (port : ℕ) → Address
unresolved r host port = record {
  is_valid = false;
  host = host;
  port = port;
  addr = record no_c_address { port = r.htons port };
}

-- The two cases of the constructor, for a numeric host and for any other.
abbrev pub parsed_or_resolved :
    Resolver → Domain → (host : Bytes) → (port : ℕ) → Option ℕ → Outcome Address
parsed_or_resolved r af host port (some ip) = ok (record {
  is_valid = true;
  host = host;
  port = port;
  addr = record no_c_address { family = number af; port = r.htons port; ip = ip };
})
parsed_or_resolved r af host port none = init_dns_address r af (unresolved r host port) host port

-- The constructor from a host and a port.
unfoldable pub new_address : Resolver → Domain → (host : Bytes) → (port : ℕ) → Outcome Address
new_address r Domain.ipv4 host port =
    parsed_or_resolved r Domain.ipv4 host port (r.inet_pton Domain.ipv4 host)
new_address r Domain.ipv6 host port =
    parsed_or_resolved r Domain.ipv6 host port (r.inet_pton Domain.ipv6 host)
new_address r Domain.unix host port = throws Exception.address_exception
new_address r Domain.unspec host port = throws Exception.address_exception

-- The constructor from a `sockaddr_in` or a `sockaddr_in6`.
unfoldable pub of_c_address : Resolver → Domain → CAddress → Outcome Address
of_c_address r af addr = init_address r af no_address addr

-- `sizeof(addr_)`
abbrev pub address_size : Domain → ℕ
address_size Domain.ipv4 = 16
address_size Domain.ipv6 = 28
address_size Domain.unix = 28
address_size Domain.unspec = 28
