-- ===== src/Socks5/Relay/Owner.antt =====
-- What a claimed relay keeps, and what a closed relay no longer does.
use awgsocks.Base.{
  ℕ, ◌≡◌, true, false, refl, ◌∙◌, arith, Option, Bytes, Option-cases, Result-cases, inl, inr,
}
use awgsocks.Netip.{Addr, AddrPort, is6}
use awgsocks.Socks5.Target.{Destination}
use awgsocks.Socks5.Connect.{Dialer}
use awgsocks.Socks5.Datagram.{parse_udp_header}
use awgsocks.Socks5.Relay.{
  Relay, WriteResult, is_unclaimed, accept_from, resolve, with_lookup, tunnel_conn, forward,
  from_client, from_tunnel, close, watch_idle, touch,
}
use awgsocks.Socks5.Relay.Claim.{accept_from-claimed}
use awgsocks.Socks5.Relay.Steps.{
  Step, client_datagram, tunnel_datagram, tick, close_now, Reach, here, next, tunnel_conn-same,
}

module _ (parse_addr : Bytes → Option Addr) where
  forward-expect :
      (d : Dialer) (written : WriteResult) (dst : Destination) (payload : Bytes) (r : Relay)
      → (forward d written dst payload r).expect ≡ r.expect
  unfolding forward with_lookup
  forward-expect d written dst payload r = elim (Option-cases (resolve d dst)) [
    | inl nowhere ↦ ground arith
    | inr (t, found) ↦
        ground (arith, tunnel_conn-same parse_addr d (is6 t.addr) (with_lookup d dst r))
  ]

  from_client-expect :
      (d : Dialer) (written : WriteResult) (now : ℕ) (from : AddrPort) (b : Bytes) (r : Relay)
      → is_unclaimed r.expect ≡ false
      → (from_client parse_addr d written now from b r).expect ≡ r.expect
  unfolding from_client
  from_client-expect d written now from b r claimed =
      let same = accept_from-claimed from (touch now r) claimed in
      elim (Result-cases (parse_udp_header parse_addr b)) [
        | inr (why, failed) ↦ ground arith
        | inl ((dst, payload), done) ↦
            ground (arith, forward-expect d written dst payload (touch now r))
      ]

  Step-expect :
      {q s : Relay} → Step parse_addr q s → is_unclaimed q.expect ≡ false → s.expect ≡ q.expect
  unfolding from_tunnel watch_idle
  Step-expect (client_datagram d written now from b) h = from_client-expect d written now from b _ h
  Step-expect (tunnel_datagram works now from b) h = ground arith
  Step-expect (tick now) h = ground arith
  Step-expect close_now h = unfold close in ground arith

  -- Once a relay is claimed, no sequence of datagrams, ticks and closing gives it another owner.
  pub Reach-expect :
      {r s : Relay} → is_unclaimed r.expect ≡ false → Reach parse_addr r s → s.expect ≡ r.expect
  Reach-expect h here = refl
  Reach-expect {r} h (next {q} path step) =
      let before = Reach-expect h path in
      let claimed : is_unclaimed q.expect ≡ false = rw before h in Step-expect step claimed ∙ before

  -- The relay is closed and has given up its sockets.
  abbrev pub IsClosed : Relay → Type 0
  IsClosed r = (r.closed ≡ true) × (r.has_map ≡ false)

  forward-closed :
      (d : Dialer) (written : WriteResult) (dst : Destination) (payload : Bytes) (r : Relay)
      → r.has_map ≡ false
      → ((forward d written dst payload r).sent ≡ r.sent)
        × ((forward d written dst payload r).closed ≡ r.closed)
        × ((forward d written dst payload r).has_map ≡ false)
  unfolding forward with_lookup tunnel_conn
  forward-closed d written dst payload r h = ground arith

  Step-IsClosed : {q s : Relay} → Step parse_addr q s → IsClosed q → IsClosed s × (s.sent ≡ q.sent)
  unfolding from_tunnel watch_idle from_client accept_from
  Step-IsClosed {q} (client_datagram d written now from b) h =
      elim (Result-cases (parse_udp_header parse_addr b)) [
        | inr (why, failed) ↦ ground arith
        | inl ((dst, payload), done) ↦ ground (
          arith,
          forward-closed d written dst payload (touch now q),
          forward-closed d written dst payload (record (touch now q) { expect = from }),
        )
      ]
  Step-IsClosed (tunnel_datagram works now from b) h = ground arith
  Step-IsClosed (tick now) h = unfold close in ground arith
  Step-IsClosed close_now h = unfold close in ground arith

  Reach-IsClosed :
      {r s : Relay} → IsClosed r → Reach parse_addr r s → IsClosed s × (s.sent ≡ r.sent)
  Reach-IsClosed h here = (h, refl)
  Reach-IsClosed h (next path step) =
      let (closed, same) = Reach-IsClosed h path in
      let (closed', same') = Step-IsClosed step closed in (closed', same' ∙ same)

  -- After `Close` of an open relay nothing enters the tunnel any more, whatever still arrives.
  pub Reach-close :
      (r : Relay) {s : Relay}
      → r.closed ≡ false
      → Reach parse_addr (close r) s
      → (s.closed ≡ true) × (s.sent ≡ r.sent)
  unfolding close
  Reach-close r h path =
      let (closed, same) = Reach-IsClosed (ground arith) path in (closed.0, ground arith)
