-- ===== src/Net/Identity.antt =====
-- Addresses made from texts and from the system's structures: what they have in common.
use libarc.Prelude.{ℕ, ◌^◌, ◌<◌, ◌≡◌, true, some}
use libarc.Prelude.Bytes.{Bytes}
use libarc.Net.Address.{Domain, number, CAddress, Resolver, Address}

-- AF_INET or AF_INET6.
abbrev pub IsInet : Domain → Type 0
IsInet Domain.ipv4 = Unit
IsInet Domain.ipv6 = Unit
IsInet Domain.unix = ⊥
IsInet Domain.unspec = ⊥

abbrev pub max_ip : Domain → ℕ
max_ip Domain.ipv4 = 2 ^ 32
max_ip Domain.ipv6 = 2 ^ 128
max_ip Domain.unix = 0
max_ip Domain.unspec = 0

-- A structure of the family whose fields are in their ranges.
pub record IsCAddress (af : Domain) (c : CAddress) : Type 0 where
  pub of_family : c.family ≡ number af
  pub port_fits : c.port < 2 ^ 16
  pub ip_fits : c.ip < max_ip af

-- What the functions of the system library document: `htons` and `ntohs` undo each other, `inet_pton` reads what `inet_ntop` prints, and
-- `getaddrinfo` gives addresses of the family that the hints name.
pub record ResolverLaws (r : Resolver) : Type 0 where
  pub swapped :
      (p : ℕ)
      → p < 2 ^ 16
      → (r.htons p < 2 ^ 16) × (r.ntohs (r.htons p) ≡ p) × (r.htons (r.ntohs p) ≡ p)
  pub reads : (af : Domain) (ip : ℕ) → ip < max_ip af → r.inet_pton af (r.inet_ntop af ip) ≡ some ip
  pub parses :
      (af : Domain) (host : Bytes) (ip : ℕ) → r.inet_pton af host ≡ some ip → ip < max_ip af
  pub resolves :
      (af : Domain) (host : Bytes) (port : ℕ) (c : CAddress)
      → r.getaddrinfo af host port ≡ some c
      → IsCAddress af c

-- An address without what its host does not say.
abbrev pub without_scope : Address → Address
without_scope a = record a { addr = record a.addr { flowinfo = 0; scope_id = 0 } }

-- What holds of an address that has been made.
pub record IsAddress (r : Resolver) (af : Domain) (a : Address) : Type 0 where
  pub is_marked : a.is_valid ≡ true
  pub is_c_address : IsCAddress af a.addr
  pub same_port : r.ntohs a.addr.port ≡ a.port
  pub same_host : r.inet_pton af a.host ≡ some a.addr.ip
