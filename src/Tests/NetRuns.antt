-- ===== src/Tests/NetRuns.antt =====
-- An address whose host is resolved, with a stand-in for the system library that writes a number as
-- one character.
use libarc.Prelude.{
  ℕ, ◌+◌, ◌*◌, ◌/◌, ◌%◌, ◌^◌, true, Option, none, some, [], ◌∷◌, ltb, if◌then◌else◌,
}
use libarc.Prelude.Bytes.{Bytes}
use libarc.Net.Address.{Domain, CAddress, Resolver, Address}
use libarc.Net.Identity.{max_ip}

abbrev reads : Domain → Bytes → Option ℕ
reads af [] = none
reads af (x ∷ []) = if ltb x (max_ip af) then some x else none
reads af (x ∷ y ∷ ys) = none

-- The two bytes of a 16-bit number are swapped.
abbrev swap : ℕ → ℕ
swap p = p % 256 * 256 + p / 256

-- 127.0.0.1 and ::1
abbrev loopback : (port : ℕ) → (family ip scope : ℕ) → CAddress
loopback port family ip scope = record {
  family = family;
  port = swap port % 2 ^ 16;
  ip = ip;
  flowinfo = 0;
  scope_id = scope;
}

abbrev resolve : Domain → Bytes → (port : ℕ) → Option CAddress
resolve Domain.ipv4 host port = some (loopback port 2 2130706433 0)
resolve Domain.ipv6 host port = some (loopback port 10 1 3)
resolve Domain.unix host port = none
resolve Domain.unspec host port = none

abbrev resolver : Resolver
resolver = record {
  htons = swap;
  ntohs = swap;
  inet_pton = reads;
  inet_ntop = λ af ip. ip ∷ [];
  getaddrinfo = resolve;
}

abbrev at_home : Address
at_home = record {
  is_valid = true;
  host = 1 ∷ [];
  port = 80;
  addr = record { family = 10; port = 20480; ip = 1; flowinfo = 0; scope_id = 3 };
}
