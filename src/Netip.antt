-- ===== src/Netip.antt =====
-- What the program uses of Go's net/netip: addresses, and addresses with a port.
use awgsocks.Base.{
  ℕ, zero, suc, ◌+◌, ◌*◌, ◌/◌, ◌%◌, Bool, true, false, ◌&&◌, [], ◌∷◌, ◌++◌, ◌≡◌, ◌==◌,
  if◌then◌else◌, Bytes, IsBytes, length, Option, none, some, get_or, take, drop, equal, equal_iff,
  ◌↔◌, arith,
}

-- `netip.Addr`: the zero value, four octets, or sixteen octets with a zone.
pub data Addr : Type 0 where
  unset : Addr
  v4 : Bytes → Addr
  v6 : Bytes → Bytes → Addr

abbrev pub WellFormed : Addr → Type 0
WellFormed unset = Unit
WellFormed (v4 b) = (length b ≡ 4) × IsBytes b
WellFormed (v6 b zone) = (length b ≡ 16) × IsBytes b

abbrev pub is4 : Addr → Bool
is4 (v4 _) = true
is4 _ = false

abbrev pub is6 : Addr → Bool
is6 (v6 _ _) = true
is6 _ = false

abbrev pub is_set : Addr → Bool
is_set unset = false
is_set _ = true

abbrev pub mapped_prefix : Bytes
mapped_prefix = 0 ∷ 0 ∷ 0 ∷ 0 ∷ 0 ∷ 0 ∷ 0 ∷ 0 ∷ 0 ∷ 0 ∷ 255 ∷ 255 ∷ []

-- `Addr.Unmap`.
unfoldable pub unmap : Addr → Addr
unmap (v6 b zone) = if equal (take 12 b) mapped_prefix then v4 (drop 12 b) else v6 b zone
unmap (v4 b) = v4 b
unmap unset = unset

abbrev pub zeros : ℕ → Bytes
zeros zero = []
zeros (suc n) = 0 ∷ zeros n

abbrev is_loopback_in : Addr → Bool
is_loopback_in (v4 b) = get_or b 0 0 == 127
is_loopback_in (v6 b zone) = equal b (zeros 15 ++ 1 ∷ [])
is_loopback_in unset = false

-- `Addr.IsLoopback`, which looks through a mapped address.
unfoldable pub is_loopback : Addr → Bool
unfolding unmap
is_loopback a = is_loopback_in (unmap a)

-- `Addr.IsUnspecified`: exactly 0.0.0.0 and ::, with no zone.
unfoldable pub is_unspecified : Addr → Bool
is_unspecified (v4 b) = equal b (zeros 4)
is_unspecified (v6 b zone) = equal b (zeros 16) && equal zone []
is_unspecified unset = false

-- `==` on addresses.
unfoldable pub equal_addr : Addr → Addr → Bool
equal_addr unset unset = true
equal_addr (v4 a) (v4 b) = equal a b
equal_addr (v6 a z) (v6 b y) = equal a b && equal z y
equal_addr _ _ = false

-- `netip.AddrFromSlice`.
abbrev pub addr_from_slice : Bytes → Option Addr
addr_from_slice b =
    if length b == 4 then some (v4 b) else if length b == 16 then some (v6 b []) else none

pub record AddrPort : Type 0 where
  pub addr : Addr
  pub port : ℕ

-- The zero `netip.AddrPort`.
abbrev pub no_addr_port : AddrPort
no_addr_port = record { addr = unset; port = 0 }

-- `==` on `netip.AddrPort`.
abbrev pub equal_addr_port : AddrPort → AddrPort → Bool
equal_addr_port a b = equal_addr a.addr b.addr && a.port == b.port

-- `binary.BigEndian.Uint16` and `PutUint16`.
abbrev pub get_u16 : Bytes → ℕ
get_u16 b = get_or b 0 0 * 256 + get_or b 1 0

abbrev pub put_u16 : ℕ → Bytes
put_u16 p = (p / 256) % 256 ∷ p % 256 ∷ []

pub equal_addr_iff : (a b : Addr) → (equal_addr a b ≡ true) ↔ (a ≡ b)
unfolding equal_addr
equal_addr_iff (v4 a) (v4 b) = ground (arith, equal_iff a b)
equal_addr_iff (v6 a z) (v6 b y) = ground (arith, equal_iff a b, equal_iff z y)
equal_addr_iff _ _ = ground arith

pub equal_addr_port_iff : (a b : AddrPort) → (equal_addr_port a b ≡ true) ↔ (a ≡ b)
equal_addr_port_iff a b = ground (arith, equal_addr_iff a.addr b.addr)
