-- ===== src/Socks5/Relay/Accounts.antt =====
-- What becomes of one datagram, and how it is counted.
use awgsocks.Base.{
  ℕ, ◌<◌, ◌≡◌, ◌⊎◌, true, arith, Option, some, ◌∷◌, [], ◌++◌, Bytes, ok, Option-cases, Result-cases,
  Bool-cases, inl, inr, length,
}
use awgsocks.Netip.{Addr, AddrPort, WellFormed, is6, is_set, unmap}
use awgsocks.Socks5.Target.{Destination}
use awgsocks.Socks5.Stats.{add_u64}
use awgsocks.Socks5.Connect.{Dialer}
use awgsocks.Socks5.Datagram.{parse_udp_header, build_udp_header}
use awgsocks.Socks5.Datagram.RoundTrip.{octets_of, parse-build_udp_header}
use awgsocks.Socks5.Relay.{
  Relay, NetAddr, WriteResult, accept_from, addr_port_of, resolve, with_lookup, tunnel_conn,
  forward, from_client, from_tunnel, touch, drop_one,
}
use awgsocks.Socks5.Relay.Claim.{IsLocal}
use awgsocks.Socks5.Relay.Steps.{tunnel_conn-same, accept_from-same}

-- The datagram did not go out, and was counted as dropped.
abbrev pub IsDropped : Relay → Relay → Type 0
IsDropped r s = (s.sent ≡ r.sent) × (s.stats ≡ (drop_one r).stats)

-- The datagram went to `t`, and was counted with `n` bytes.
abbrev pub IsSent : Relay → Relay → AddrPort → Bytes → ℕ → Type 0
IsSent r s t payload n =
    (s.sent ≡ (t, payload) ∷ r.sent)
    × (s.stats ≡ record r.stats {
      udp_sent = add_u64 r.stats.udp_sent 1;
      udp_bytes_up = add_u64 r.stats.udp_bytes_up n;
    })

-- How a datagram from `from` gets out: it is accepted, it parses, its destination resolves, and the
-- tunnel socket takes it.
pub record GoesOut (parse_addr : Bytes → Option Addr) (d : Dialer) (written : WriteResult) (now : ℕ)
    (from : AddrPort) (b : Bytes) (r s : Relay) : Type 0 where
  pub dst : Destination
  pub payload : Bytes
  pub target : AddrPort
  pub taken : ℕ
  pub accepted : (accept_from from (touch now r)).0 ≡ true
  pub parsed : parse_udp_header parse_addr b ≡ ok (dst, payload)
  pub resolved : resolve d dst ≡ some target
  pub wrote : written ≡ some taken
  pub is_sent : IsSent r s target payload taken

module _ (parse_addr : Bytes → Option Addr) where
  forward-accounts :
      (d : Dialer) (written : WriteResult) (dst : Destination) (payload : Bytes) (r : Relay)
      → IsDropped r (forward d written dst payload r)
        ⊎ ((t : AddrPort) × (n : ℕ) × (resolve d dst ≡ some t)
            × (written ≡ some n)
            × IsSent r (forward d written dst payload r) t payload n)
  unfolding forward with_lookup
  forward-accounts d written dst payload r = elim (Option-cases (resolve d dst)) [
    | inl nowhere ↦ inl (ground arith)
    | inr (t, found) ↦ elim (Option-cases (tunnel_conn d (is6 t.addr) (with_lookup d dst r)).0) [
      | inr (why, shut) ↦
          inl (ground (arith, tunnel_conn-same parse_addr d (is6 t.addr) (with_lookup d dst r)))
      | inl up ↦ elim (Option-cases written) [
        | inl failed ↦
            inl (ground (arith, tunnel_conn-same parse_addr d (is6 t.addr) (with_lookup d dst r)))
        | inr (n, wrote) ↦ inr (
          t,
          n,
          found,
          wrote,
          ground (arith, tunnel_conn-same parse_addr d (is6 t.addr) (with_lookup d dst r)),
        )
      ]
    ]
  ]

  -- Every datagram from the client is either dropped and counted once as dropped, or sent whole and
  -- counted once as sent; the second only if its sender is accepted, its header parses, its
  -- destination resolves and the tunnel socket takes it.
  pub from_client-accounts :
      (d : Dialer) (written : WriteResult) (now : ℕ) (from : AddrPort) (b : Bytes) (r : Relay)
      → IsDropped r (from_client parse_addr d written now from b r)
        ⊎ GoesOut parse_addr d written now from b r (from_client parse_addr d written now from b r)
  unfolding from_client
  from_client-accounts d written now from b r =
      let q = (accept_from from (touch now r)).1 in
      let same = accept_from-same parse_addr from (touch now r) in
      elim (Bool-cases (accept_from from (touch now r)).0) [
        | inr refused ↦ inl (ground arith)
        | inl accepted ↦ elim (Result-cases (parse_udp_header parse_addr b)) [
          | inr (why, failed) ↦ inl (ground arith)
          | inl ((dst, payload), parsed) ↦ elim (forward-accounts d written dst payload q) [
            | inl dropped ↦ inl (ground arith)
            | inr (t, n, resolved, wrote, out) ↦ inr (record {
              dst = dst;
              payload = payload;
              target = t;
              taken = n;
              accepted = accepted;
              parsed = parsed;
              resolved = resolved;
              wrote = wrote;
              is_sent = ground arith;
            })
          ]
        ]
      ]

  -- A datagram out of the tunnel reaches the owner on this machine, if the client's socket works:
  -- under a header that reads back as its source, with its payload whole, counted with its bytes.
  pub from_tunnel-delivers :
      (now : ℕ) (from : NetAddr) (src : AddrPort) (b : Bytes) (r : Relay)
      → addr_port_of from ≡ some src
      → WellFormed (unmap src.addr)
      → 0 < src.port
      → src.port < 65536
      → IsLocal r.expect
      → is_set r.expect.addr ≡ true
      → 0 < r.expect.port
      → let s = from_tunnel true now from b r in
        (out : Bytes) × (s.delivered ≡ (r.expect, out) ∷ r.delivered)
        × (parse_udp_header parse_addr out
            ≡ ok (record { host = []; addr = octets_of (unmap src.addr); port = src.port }, b))
        × (s.stats ≡ record r.stats {
          udp_received = add_u64 r.stats.udp_received 1;
          udp_bytes_down = add_u64 r.stats.udp_bytes_down (length b);
        })
  unfolding from_tunnel
  from_tunnel-delivers now from src b r named w pos small here set claimed = (
    build_udp_header [] src ++ b,
    ground arith,
    parse-build_udp_header parse_addr src b w pos small,
    ground arith,
  )
