-- ===== src/Config/Finalize.antt =====
-- internal/config/tunnel.go: `Tunnel`, `finalize` and the accessors of the tunnel's addresses.
mod Sorted
pub mod Sound
use awgsocks.Base.{
  ℕ, suc, ◌+◌, Bool, true, false, not, ◌&&◌, ◌||◌, List, [], ◌∷◌, ◌++◌, Option, none, some, Bytes,
  ltb, leb, ◌==◌, length, if◌then◌else◌, Result, ok, err, ◌>>=◌, equal,
}
use awgsocks.Strings.{Text}
use awgsocks.Netip.{Addr, unset, v4, v6, unmap, is6, is_loopback, addr_from_slice}

-- A peer of the upstream parser's `conf.Config`: what its methods answer about the key and the
-- endpoint, and the key as `NoisePublicKey.FromHex` reads it, if it does.
pub record Peer : Type 0 where
  pub key_is_zero : Bool
  pub key : Option Bytes
  pub endpoint_is_empty : Bool
  pub host : Text
  pub port : ℕ
  pub allowed_ips : ℕ

-- What the program reads of `conf.Config`. An address is its octets and its CIDR length.
pub record UpstreamConfig : Type 0 where
  pub interface_addresses : List (Bytes × ℕ)
  pub interface_dns : List Bytes
  pub search : List Text
  pub peers : List Peer

pub data TunnelWarning : Type 0 where
  dns_outside : List Addr → TunnelWarning
  dns_ignored : List Addr → TunnelWarning
  search_not_applied : List Text → TunnelWarning
  no_dns_set : TunnelWarning
  several_peers : ℕ → TunnelWarning

-- `Tunnel`, in the fields that are not for display.
pub record TunnelConfig : Type 0 where
  pub config : UpstreamConfig
  pub addresses : List Addr
  pub prefixes : List (Addr × ℕ)
  pub dns : List Addr
  pub local_dns : List Addr
  pub search : List Text
  pub mtu : ℕ
  pub s4 : ℕ
  pub warnings : List TunnelWarning

pub data FinalizeError : Type 0 where
  no_address bad_address bad_prefix bad_dns no_peer bad_mtu : FinalizeError
  no_public_key no_endpoint bad_endpoint_port no_allowed_ips : ℕ → FinalizeError

-- `Addr.BitLen`, and `Prefix.IsValid` of an address with a length.
abbrev pub bit_len : Addr → ℕ
bit_len unset = 0
bit_len (v4 b) = 32
bit_len (v6 b zone) = 128

abbrev pub is_valid_prefix : Addr → ℕ → Bool
is_valid_prefix unset bits = false
is_valid_prefix (v4 b) bits = leb bits 32
is_valid_prefix (v6 b zone) bits = leb bits 128

add_prefix : Addr → ℕ → TunnelConfig → Result FinalizeError TunnelConfig
add_prefix addr bits t =
    if not (is_valid_prefix addr bits)
    then err bad_prefix
    else ok (record t {
      addresses = t.addresses ++ (addr ∷ []);
      prefixes = t.prefixes ++ ((addr, bits) ∷ []);
    })

add_address : Option Addr → ℕ → TunnelConfig → Result FinalizeError TunnelConfig
unfolding add_prefix
add_address none cidr t = err bad_address
add_address (some a) cidr t = add_prefix (unmap a) cidr t

-- The loop over the interface's addresses.
add_addresses : List (Bytes × ℕ) → TunnelConfig → Result FinalizeError TunnelConfig
unfolding add_address
add_addresses [] t = ok t
add_addresses ((ip, cidr) ∷ rest) t =
    add_address (addr_from_slice ip) cidr t >>= (λ t'. add_addresses rest t')

add_server : Addr → TunnelConfig → TunnelConfig
add_server addr t =
    if is_loopback addr
    then record t { local_dns = t.local_dns ++ (addr ∷ []) }
    else record t { dns = t.dns ++ (addr ∷ []) }

add_dns : Option Addr → TunnelConfig → Result FinalizeError TunnelConfig
unfolding add_server
add_dns none t = err bad_dns
add_dns (some a) t = ok (add_server (unmap a) t)

-- The loop over the interface's DNS servers.
pub add_dns_servers : List Bytes → TunnelConfig → Result FinalizeError TunnelConfig
unfolding add_dns
add_dns_servers [] t = ok t
add_dns_servers (d ∷ rest) t = add_dns (addr_from_slice d) t >>= (λ t'. add_dns_servers rest t')

abbrev warn : TunnelWarning → TunnelConfig → TunnelConfig
warn w t = record t { warnings = t.warnings ++ (w ∷ []) }

-- A resolver on this machine, and the tunnel's resolvers behind it.
pub choose_dns : List Addr → List Addr → TunnelConfig → TunnelConfig
choose_dns [] dns t = t
choose_dns (a ∷ local) [] t = warn (dns_outside (a ∷ local)) t
choose_dns (a ∷ local) (d ∷ dns) t =
    record (warn (dns_ignored (d ∷ dns)) (warn (dns_outside (a ∷ local)) t)) { dns = [] }

pub note_search : List Text → TunnelConfig → TunnelConfig
note_search [] t = record t { search = [] }
note_search (s ∷ ss) t = warn (search_not_applied (s ∷ ss)) (record t { search = s ∷ ss })

pub note_no_dns : List Addr → List Addr → TunnelConfig → TunnelConfig
note_no_dns [] [] t = warn no_dns_set t
note_no_dns (d ∷ dns) local t = t
note_no_dns [] (a ∷ local) t = t

peer_error : ℕ → Peer → Option FinalizeError
peer_error i p =
    if p.key_is_zero
    then some (no_public_key i)
    else if p.endpoint_is_empty
    then some (no_endpoint i)
    else if p.port == 0
    then some (bad_endpoint_port i)
    else if p.allowed_ips == 0
    then some (no_allowed_ips i)
    else none

-- The loop over the peers, from the one with the number `i` on.
peers_error : ℕ → List Peer → Option FinalizeError
unfolding peer_error
peers_error i [] = none
peers_error i (p ∷ ps) =
    let later = peers_error (suc i) ps in elim (peer_error i p) [ some e ↦ some e | none ↦ later ]

pub note_peers : List Peer → TunnelConfig → TunnelConfig
note_peers ps t = if ltb 1 (length ps) then warn (several_peers (length ps)) t else t

mtu_checked : TunnelConfig → Result FinalizeError TunnelConfig
mtu_checked t = if ltb t.mtu 576 || ltb 65535 t.mtu then err bad_mtu else ok t

unless : Option FinalizeError → TunnelConfig → Result FinalizeError TunnelConfig
unfolding mtu_checked
unless (some e) t = err e
unless none t = mtu_checked t

checked_peers : List Peer → TunnelConfig → Result FinalizeError TunnelConfig
unfolding peers_error note_peers unless
checked_peers [] t = err no_peer
checked_peers (p ∷ ps) t = unless (peers_error 1 (p ∷ ps)) (note_peers (p ∷ ps) t)

-- From the choice of the resolvers on.
settled : TunnelConfig → Result FinalizeError TunnelConfig
unfolding choose_dns note_search note_no_dns checked_peers
settled t =
    let t1 = choose_dns t.local_dns t.dns t in
    let t2 = note_search t.config.search t1 in
    checked_peers t.config.peers (note_no_dns t2.dns t2.local_dns t2)

pub with_addresses : List (Bytes × ℕ) → TunnelConfig → Result FinalizeError TunnelConfig
unfolding add_addresses
with_addresses [] t = err no_address
with_addresses (a ∷ rest) t = add_addresses (a ∷ rest) t

-- `finalize`, of a `Tunnel` whose lists are still empty.
unfoldable pub finalize : TunnelConfig → Result FinalizeError TunnelConfig
unfolding with_addresses add_dns_servers settled
finalize t =
    with_addresses t.config.interface_addresses t
    >>= (λ t1. add_dns_servers t1.config.interface_dns t1 >>= settled)

-- `AddressOfFamily`.
abbrev same_bool : Bool → Bool → Bool
same_bool true b = b
same_bool false b = not b

unfoldable pub address_of_family : Bool → List Addr → Option Addr
address_of_family ipv6 [] = none
address_of_family ipv6 (a ∷ rest) =
    if same_bool (is6 a) ipv6 then some a else address_of_family ipv6 rest

-- `HasFamily`.
unfoldable pub has_family : Bool → TunnelConfig → Bool
has_family ipv6 t = elim (address_of_family ipv6 t.addresses) [ none ↦ false | some a ↦ true ]
