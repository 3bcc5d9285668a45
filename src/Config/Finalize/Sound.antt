-- ===== src/Config/Finalize/Sound.antt =====
-- What a tunnel configuration consists of when it is accepted.
use awgsocks.Base.{
  ℕ, suc, ◌≤◌, ◌<◌, ◌≡◌, ◌⊎◌, refl, subst, arith, false, List, [], ◌∷◌, Option, none, some, inl,
  inr, length, All, ok, ◌>>=◌, IfOk, IfOk-eq, IfOk->>=, ltb, ◌||◌, ap, Bool-cases,
}
use awgsocks.Config.Finalize.{
  Peer, UpstreamConfig, TunnelConfig, FinalizeError, add_dns_servers, choose_dns, note_search,
  note_no_dns, peer_error, peers_error, note_peers, mtu_checked, unless, checked_peers, settled,
  with_addresses, finalize,
}
use awgsocks.Config.Finalize.Sorted.{
  IsSorted, HasPrefix, IsSettled, with_addresses-HasPrefix, add_dns_servers-HasPrefix,
  choose_dns-IsSettled, note_search-IsSettled, note_no_dns-IsSettled, note_peers-IsSettled,
}

-- The peer can be reached: it has a key, an endpoint with a port, and addresses that are routed to it.
abbrev pub IsReachable : Peer → Type 0
IsReachable p =
    (p.key_is_zero ≡ false) × (p.endpoint_is_empty ≡ false) × (0 < p.port) × (0 < p.allowed_ips)

peers_error-IsReachable : (i : ℕ) (ps : List Peer) → peers_error i ps ≡ none → All IsReachable ps
unfolding peers_error peer_error
peers_error-IsReachable i [] e = tt
peers_error-IsReachable i (p ∷ ps) e = ground (arith, peers_error-IsReachable (suc i) ps)

module _ (c : UpstreamConfig) (m : ℕ) where
  -- What an accepted configuration is.
  pub record IsComplete (t : TunnelConfig) : Type 0 where
    pub sorted : IsSorted c m t
    pub has_prefix : 0 < length t.prefixes
    pub one_source : (t.dns ≡ []) ⊎ (t.local_dns ≡ [])
    pub has_peer : 0 < length c.peers
    pub reachable : All IsReachable c.peers
    pub mtu_fits : (576 ≤ m) × (m ≤ 65535)

  mtu_checked-IsComplete :
      (t : TunnelConfig)
      → IsSettled c m t
      → 0 < length c.peers
      → All IsReachable c.peers
      → IfOk IsComplete (mtu_checked t)
  unfolding mtu_checked
  mtu_checked-IsComplete t ((h, n), one) some_peer reachable =
      elim (Bool-cases (ltb t.mtu 576 || ltb 65535 t.mtu)) [
        | inl bad ↦ rw bad tt
        | inr good ↦ rw good (record {
          sorted = h;
          has_prefix = n;
          one_source = one;
          has_peer = some_peer;
          reachable = reachable;
          mtu_fits = ground (arith, h.same_mtu);
        })
      ]

  unless-IsComplete :
      (e : Option FinalizeError) (t : TunnelConfig)
      → IsSettled c m t
      → 0 < length c.peers
      → (e ≡ none → All IsReachable c.peers)
      → IfOk IsComplete (unless e t)
  unfolding unless
  unless-IsComplete (some e) t h some_peer reachable = tt
  unless-IsComplete none t h some_peer reachable =
      mtu_checked-IsComplete t h some_peer (reachable refl)

  checked_peers-IsComplete :
      (ps : List Peer) (t : TunnelConfig)
      → ps ≡ c.peers
      → IsSettled c m t
      → IfOk IsComplete (checked_peers ps t)
  unfolding checked_peers
  checked_peers-IsComplete [] t same h = tt
  checked_peers-IsComplete (p ∷ ps) t same h =
      unless-IsComplete (peers_error 1 (p ∷ ps)) (note_peers (p ∷ ps) t)
        (note_peers-IsSettled c m (p ∷ ps) t h)
        (subst (λ (qs : List Peer). 0 < length qs) same (omega arith))
        (λ good. subst (λ qs. All IsReachable qs) same (peers_error-IsReachable 1 (p ∷ ps) good))

  settled-IsComplete : (t : TunnelConfig) → HasPrefix c m t → IfOk IsComplete (settled t)
  unfolding settled
  settled-IsComplete t h =
      let t1 = choose_dns t.local_dns t.dns t in
      let t2 = note_search t.config.search t1 in
      checked_peers-IsComplete t.config.peers (note_no_dns t2.dns t2.local_dns t2)
        (ap (λ (u : UpstreamConfig). u.peers) h.0.same_config)
        (note_no_dns-IsSettled c m t2.dns t2.local_dns t2 (
          note_search-IsSettled c m t.config.search t1
            (choose_dns-IsSettled c m t.local_dns t.dns t refl refl h)))

-- The `Tunnel` that `ParseTunnel` hands over: the parser's configuration, and no lists yet.
abbrev pub unfinished : UpstreamConfig → ℕ → ℕ → TunnelConfig
unfinished c m s4 = record {
  config = c;
  addresses = [];
  prefixes = [];
  dns = [];
  local_dns = [];
  search = [];
  mtu = m;
  s4 = s4;
  warnings = [];
}

-- A tunnel configuration that is accepted keeps the parser's configuration and the MTU, which is from
-- 576 to 65535. It has at least one address, each with a valid prefix. Its resolvers are all on this
-- machine or all behind the tunnel. It has at least one peer, and each has a key, an endpoint with a
-- port, and an address that is routed to it.
pub finalize-IsComplete :
    (c : UpstreamConfig) (m s4 : ℕ) (t : TunnelConfig)
    → finalize (unfinished c m s4) ≡ ok t
    → IsComplete c m t
unfolding finalize
finalize-IsComplete c m s4 t e =
    let first : IsSorted c m (unfinished c m s4) = record {
      same_config = refl;
      same_mtu = refl;
      paired = refl;
      valid = tt;
      local = tt;
      remote = tt;
    } in
    IfOk-eq (IsComplete c m) (finalize (unfinished c m s4)) t
      (IfOk->>= (HasPrefix c m) (IsComplete c m)
        (with_addresses c.interface_addresses (unfinished c m s4))
        (λ t1. add_dns_servers t1.config.interface_dns t1 >>= settled)
        (with_addresses-HasPrefix c m c.interface_addresses (unfinished c m s4) first)
        (λ t1 h1.
          IfOk->>= (HasPrefix c m) (IsComplete c m) (add_dns_servers t1.config.interface_dns t1)
            settled (add_dns_servers-HasPrefix c m t1.config.interface_dns t1 h1)
            (λ t2 h2. settled-IsComplete c m t2 h2)))
      e
