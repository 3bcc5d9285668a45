-- ===== src/Socks5/Connect/Counters.antt =====
-- The counters that `connect` moves.
use awgsocks.Base.{
  ℕ, ◌+◌, ◌≡◌, refl, arith, List, [], ◌∷◌, Option, none, Bytes, Result, ok, err, equal,
  if◌then◌else◌, List-cases, inl, inr, ◌||◌,
}
use awgsocks.Netip.{Addr, AddrPort}
use awgsocks.Socks5.Target.{Destination}
use awgsocks.Socks5.Failure.{GoError}
use awgsocks.Socks5.Stats.{Stats}
use awgsocks.Socks5.Connect.{
  Dialer, Egress, looked_up, routable, dial_all, finish, connect_found, connect,
}

-- No name was found: the lookup failed with the tunnel up, or found only blocked addresses.
unfoldable pub unresolved : Result GoError (List Addr) → ℕ
unresolved (err e) = if e.tunnel_down || e.not_ready then 0 else 1
unresolved (ok addrs) = elim (routable addrs) [ [] ↦ 1 | a ∷ rest ↦ 0 ]

module _ (lower_other : ℕ → ℕ) (d : Dialer) where
  pub finish-stats :
      (s : Stats) (before : List Egress) (r : List Egress × Result (Option GoError) AddrPort)
      → (finish lower_other d s before r).stats ≡ s
  unfolding finish
  finish-stats s before (used, ok t) = refl
  finish-stats s before (used, err e) = refl

  connect_found-stats :
      (s : Stats) (host : Bytes) (port : ℕ) (r : Result GoError (List Addr))
      → (connect_found lower_other d s host port r).stats
        ≡ record s { no_name = s.no_name + unresolved r }
  unfolding connect_found unresolved
  connect_found-stats s host port (err e) = ground arith
  connect_found-stats s host port (ok addrs) = elim (List-cases (routable addrs)) [
    | inl none_left ↦ rw (none_left, connect_found, unresolved) refl
    | inr (a, rest, some_left) ↦
        let used = dial_all d 0 port none (a ∷ rest) in
        rw (some_left, connect_found, unresolved)
          (ground (arith, finish-stats s (looked_up host ∷ []) used))
  ]

  -- A request counts as a hostname request if it names one, and as unresolved if there is no DNS, or
  -- if the lookup found nothing that may be dialled while the tunnel was up; `connect` moves no other
  -- counter.
  pub connect-stats :
      (s : Stats) (dest : Destination)
      → (connect lower_other d s dest).stats ≡ (
          if equal dest.host [] then s else record s {
            hostname = s.hostname + 1;
            no_name = s.no_name + (if d.has_dns then unresolved (d.lookup_host dest.host) else 1);
          })
  unfolding connect
  connect-stats s dest =
      let counted = record s { hostname = s.hostname + 1 } in
      ground (
        arith,
        connect_found-stats counted dest.host dest.port (d.lookup_host dest.host),
        finish-stats s [] (dial_all d 0 dest.port none (dest.addr ∷ [])),
      )
