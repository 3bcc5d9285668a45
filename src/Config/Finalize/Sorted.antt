-- ===== src/Config/Finalize/Sorted.antt =====
-- The addresses and the resolvers of a tunnel configuration while it is being finished.
use awgsocks.Base.{
  ℕ, ◌<◌, ◌≡◌, ◌⊎◌, refl, sym, arith, true, false, List, [], ◌∷◌, Option, none, some, inl, inr,
  Bytes, length, length-append, All, All-append, IfOk, IfOk->>=, ltb, Option-cases, Bool-cases,
}
use awgsocks.Strings.{Text}
use awgsocks.Netip.{Addr, unmap, is_loopback, addr_from_slice}
use awgsocks.Config.Finalize.{
  Peer, UpstreamConfig, TunnelConfig, is_valid_prefix, add_prefix, add_address, add_addresses,
  add_server, add_dns, add_dns_servers, choose_dns, note_search, note_no_dns, note_peers,
  with_addresses,
}

-- The configuration of the upstream parser and the MTU are `c` and `m`, every prefix is valid, and the
-- resolvers are told apart by whether they are on this machine.
pub record IsSorted (c : UpstreamConfig) (m : ℕ) (t : TunnelConfig) : Type 0 where
  pub same_config : t.config ≡ c
  pub same_mtu : t.mtu ≡ m
  pub paired : length t.addresses ≡ length t.prefixes
  pub valid : All (λ (p : Addr × ℕ). is_valid_prefix p.0 p.1 ≡ true) t.prefixes
  pub local : All (λ a. is_loopback a ≡ true) t.local_dns
  pub remote : All (λ a. is_loopback a ≡ false) t.dns

module _ (c : UpstreamConfig) (m : ℕ) where
  -- Sorted, with at least one prefix.
  abbrev pub HasPrefix : TunnelConfig → Type 0
  HasPrefix t = IsSorted c m t × (0 < length t.prefixes)

  add_prefix-HasPrefix :
      (addr : Addr) (bits : ℕ) (t : TunnelConfig)
      → IsSorted c m t
      → IfOk HasPrefix (add_prefix addr bits t)
  unfolding add_prefix
  add_prefix-HasPrefix addr bits t h = elim (Bool-cases (is_valid_prefix addr bits)) [
    | inl good ↦ rw good (
        (
          record {
            same_config = h.same_config;
            same_mtu = h.same_mtu;
            paired = omega (
              arith,
              h.paired,
              length-append t.addresses (addr ∷ []),
              length-append t.prefixes ((addr, bits) ∷ []),
            );
            valid = All-append _ t.prefixes ((addr, bits) ∷ []) h.valid (good, tt);
            local = h.local;
            remote = h.remote;
          },
          omega (arith, length-append t.prefixes ((addr, bits) ∷ [])),
        ))
    | inr bad ↦ rw bad tt
  ]

  add_address-HasPrefix :
      (addr : Option Addr) (cidr : ℕ) (t : TunnelConfig)
      → IsSorted c m t
      → IfOk HasPrefix (add_address addr cidr t)
  unfolding add_address
  add_address-HasPrefix none cidr t h = tt
  add_address-HasPrefix (some a) cidr t h = add_prefix-HasPrefix (unmap a) cidr t h

  add_addresses-HasPrefix :
      (more : List (Bytes × ℕ)) (t : TunnelConfig)
      → HasPrefix t
      → IfOk HasPrefix (add_addresses more t)
  unfolding add_addresses
  add_addresses-HasPrefix [] t h = h
  add_addresses-HasPrefix ((ip, cidr) ∷ rest) t h =
      IfOk->>= HasPrefix HasPrefix (add_address (addr_from_slice ip) cidr t)
        (λ t'. add_addresses rest t') (add_address-HasPrefix (addr_from_slice ip) cidr t h.0)
        (λ t' h'. add_addresses-HasPrefix rest t' h')

  pub with_addresses-HasPrefix :
      (all : List (Bytes × ℕ)) (t : TunnelConfig)
      → IsSorted c m t
      → IfOk HasPrefix (with_addresses all t)
  unfolding with_addresses add_addresses
  with_addresses-HasPrefix [] t h = tt
  with_addresses-HasPrefix ((ip, cidr) ∷ rest) t h =
      IfOk->>= HasPrefix HasPrefix (add_address (addr_from_slice ip) cidr t)
        (λ t'. add_addresses rest t') (add_address-HasPrefix (addr_from_slice ip) cidr t h)
        (λ t' h'. add_addresses-HasPrefix rest t' h')

  add_server-HasPrefix : (a : Addr) (t : TunnelConfig) → HasPrefix t → HasPrefix (add_server a t)
  unfolding add_server
  add_server-HasPrefix a t (h, some_prefix) = elim (Bool-cases (is_loopback a)) [
    | inl here ↦
        let local = All-append _ t.local_dns (a ∷ []) h.local (here, tt) in
        rw here (
          (
            record {
              same_config = h.same_config;
              same_mtu = h.same_mtu;
              paired = h.paired;
              valid = h.valid;
              local = local;
              remote = h.remote;
            },
            some_prefix,
          ))
    | inr there ↦
        let remote = All-append _ t.dns (a ∷ []) h.remote (there, tt) in
        rw there (
          (
            record {
              same_config = h.same_config;
              same_mtu = h.same_mtu;
              paired = h.paired;
              valid = h.valid;
              local = h.local;
              remote = remote;
            },
            some_prefix,
          ))
  ]

  pub add_dns_servers-HasPrefix :
      (servers : List Bytes) (t : TunnelConfig)
      → HasPrefix t
      → IfOk HasPrefix (add_dns_servers servers t)
  unfolding add_dns_servers add_dns
  add_dns_servers-HasPrefix [] t h = h
  add_dns_servers-HasPrefix (d ∷ rest) t h = elim (Option-cases (addr_from_slice d)) [
    | inl bad ↦ rw bad tt
    | inr (a, good) ↦ rw good (
        add_dns_servers-HasPrefix rest (add_server (unmap a) t)
          (add_server-HasPrefix (unmap a) t h))
  ]

  -- As `HasPrefix`, and the resolvers are on this machine or behind the tunnel, not both.
  abbrev pub IsSettled : TunnelConfig → Type 0
  IsSettled t = HasPrefix t × ((t.dns ≡ []) ⊎ (t.local_dns ≡ []))

  pub choose_dns-IsSettled :
      (local dns : List Addr) (t : TunnelConfig)
      → local ≡ t.local_dns
      → dns ≡ t.dns
      → HasPrefix t
      → IsSettled (choose_dns local dns t)
  unfolding choose_dns
  choose_dns-IsSettled [] dns t el ed (h, n) = ((h, n), inr (sym el))
  choose_dns-IsSettled (a ∷ local) [] t el ed (h, n) = ((ground (arith, h), n), inl (sym ed))
  choose_dns-IsSettled (a ∷ local) (d ∷ dns) t el ed (h, n) = (
    (
      record {
        same_config = h.same_config;
        same_mtu = h.same_mtu;
        paired = h.paired;
        valid = h.valid;
        local = h.local;
        remote = tt;
      },
      n,
    ),
    inl refl,
  )

  pub note_search-IsSettled :
      (search : List Text) (t : TunnelConfig) → IsSettled t → IsSettled (note_search search t)
  unfolding note_search
  note_search-IsSettled [] t h = ground (arith, h)
  note_search-IsSettled (s ∷ ss) t h = ground (arith, h)

  pub note_no_dns-IsSettled :
      (dns local : List Addr) (t : TunnelConfig) → IsSettled t → IsSettled (note_no_dns dns local t)
  unfolding note_no_dns
  note_no_dns-IsSettled [] [] t h = ground (arith, h)
  note_no_dns-IsSettled (d ∷ dns) local t h = h
  note_no_dns-IsSettled [] (a ∷ local) t h = h

  pub note_peers-IsSettled :
      (ps : List Peer) (t : TunnelConfig) → IsSettled t → IsSettled (note_peers ps t)
  unfolding note_peers
  note_peers-IsSettled ps t h = elim (Bool-cases (ltb 1 (length ps))) [
    | inl several ↦ rw several (ground (arith, h))
    | inr one ↦ rw one h
  ]
