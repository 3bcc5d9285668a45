-- ===== src/Service/Conflict.antt =====
-- internal/service/conflict.go.
pub mod Found
use awgsocks.Base.{
  ℕ, Bool, true, false, not, ◌&&◌, ◌||◌, List, [], ◌∷◌, ◌++◌, Option, none, some, Bytes,
  if◌then◌else◌,
}
use awgsocks.Strings.{Text}
use awgsocks.Netip.{Addr, unmap, is_set, is_unspecified, is_loopback, equal_addr, addr_from_slice}

-- `hostAddress`.
pub record HostAddress : Type 0 where
  pub adapter : Text
  pub addr : Addr

-- An interface as `net.Interfaces` lists it: its addresses are `none` if reading them failed, and one
-- of them is `none` if it is not a `*net.IPNet`.
pub record Interface : Type 0 where
  pub name : Text
  pub up : Bool
  pub addrs : Option (List (Option Bytes))

address_from : Text → Option Addr → List HostAddress
address_from name none = []
address_from name (some a) = record { adapter = name; addr = unmap a } ∷ []

addresses_from : Text → List (Option Bytes) → List HostAddress
unfolding address_from
addresses_from name [] = []
addresses_from name (none ∷ addrs) = addresses_from name addrs
addresses_from name (some ip ∷ addrs) =
    address_from name (addr_from_slice ip) ++ addresses_from name addrs

listed_from : Text → Option (List (Option Bytes)) → List HostAddress
unfolding addresses_from
listed_from name none = []
listed_from name (some addrs) = addresses_from name addrs

-- `systemHostAddresses`, behind the call of `net.Interfaces`.
unfoldable pub system_host_addresses : List Interface → List HostAddress
unfolding listed_from
system_host_addresses [] = []
system_host_addresses (i ∷ is) =
    (if not i.up then [] else listed_from i.name i.addrs) ++ system_host_addresses is

-- The tunnel address can be held by an adapter.
abbrev pub is_usable : Addr → Bool
is_usable want = not (not (is_set want) || is_unspecified want || is_loopback want)

unfoldable pub held_by : Addr → List HostAddress → Option HostAddress
held_by want [] = none
held_by want (h ∷ host) =
    let rest = held_by want host in if equal_addr h.addr want then some h else rest

-- `configConflict`.
unfoldable pub config_conflict : List (Addr × ℕ) → List HostAddress → Option HostAddress
config_conflict [] host = none
config_conflict (p ∷ tunnel) host =
    let rest = config_conflict tunnel host in
    let want = unmap p.0 in
    if not (is_usable want)
    then rest
    else elim (held_by want host) [ none ↦ rest | some h ↦ some h ]
