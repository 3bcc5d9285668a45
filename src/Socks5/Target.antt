-- ===== src/Socks5/Target.antt =====
-- internal/socks5/server.go, udp.go: protocol constants and the targets that a client names.
use awgsocks.Base.{ℕ, ◌<◌, [], ◌∷◌, ◌≡◌, Option, none, some, Bytes, length}
use awgsocks.Netip.{Addr, unset, v4, v6, unmap}

abbrev pub socks_version : ℕ
socks_version = 5

abbrev pub method_no_auth : ℕ
method_no_auth = 0x00

abbrev pub method_no_acceptable : ℕ
method_no_acceptable = 0xFF

abbrev pub cmd_connect : ℕ
cmd_connect = 1

abbrev pub cmd_bind : ℕ
cmd_bind = 2

abbrev pub cmd_udp_associate : ℕ
cmd_udp_associate = 3

abbrev pub atyp_ipv4 : ℕ
atyp_ipv4 = 1

abbrev pub atyp_domain : ℕ
atyp_domain = 3

abbrev pub atyp_ipv6 : ℕ
atyp_ipv6 = 4

-- `destination` of server.go and `udpDestination` of udp.go, which have the same fields.
pub record Destination : Type 0 where
  pub host : Bytes
  pub addr : Addr
  pub port : ℕ

-- What RFC 1928 lets a client put into an address field.
pub data Target : Type 0 where
  ipv4 ipv6 domain : Bytes → Target

abbrev pub IsTarget : Target → Type 0
IsTarget (ipv4 b) = length b ≡ 4
IsTarget (ipv6 b) = length b ≡ 16
IsTarget (domain n) = (0 < length n) × (length n < 256)

-- The ATYP byte and the address field of the RFC.
abbrev pub atyp : Target → ℕ
atyp (ipv4 b) = atyp_ipv4
atyp (ipv6 b) = atyp_ipv6
atyp (domain n) = atyp_domain

abbrev pub field : Target → Bytes
field (ipv4 b) = b
field (ipv6 b) = b
field (domain n) = length n ∷ n

-- What a target means: a name that reads as an address is that address.
abbrev named : Bytes → Option Addr → ℕ → Destination
named n none port = record { host = n; addr = unset; port = port }
named n (some a) port = record { host = []; addr = unmap a; port = port }

abbrev pub meaning : (Bytes → Option Addr) → Target → ℕ → Destination
meaning parse_addr (ipv4 b) port = record { host = []; addr = v4 b; port = port }
meaning parse_addr (ipv6 b) port = record { host = []; addr = v6 b []; port = port }
meaning parse_addr (domain n) port = named n (parse_addr n) port
