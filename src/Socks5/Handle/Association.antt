-- ===== src/Socks5/Handle/Association.antt =====
-- The life of a UDP association inside a session.
use awgsocks.Base.{
  ℕ, ◌+◌, ◌≡◌, true, false, refl, arith, List, [], ◌∷◌, Option, none, some, Bytes, Result-cases,
  Option-cases, Bool-cases, inl, inr, ◌∙◌,
}
use awgsocks.Netip.{Addr, AddrPort}
use awgsocks.Socks5.Target.{Destination}
use awgsocks.Socks5.Session.{Conn, negotiate, read_request}
use awgsocks.Socks5.Stats.{Stats}
use awgsocks.Socks5.Connect.Counters.{connect-stats}
use awgsocks.Socks5.Connect.{Dialer}
use awgsocks.Socks5.Relay.{
  Relay, new_udp_relay, warm_up, from_tunnel, watch_idle, close, tunnel_conn,
}
use awgsocks.Socks5.Relay.Steps.{
  Step, client_datagram, tunnel_datagram, tick, here, next, IsSafe, Reach-IsSafe, tunnel_conn-same,
  new_udp_relay-IsSafe,
}
use awgsocks.Socks5.Relay.Accounts.{from_client-accounts}
use awgsocks.Socks5.Handle.{
  RelayEvent, client_sends, tunnel_sends, ticks, Surroundings, Ending, run_event, run_events,
  associated, associate, serve_connect, dispatch, handle, expected,
}

-- The relay of a session, if it had one, did only what a relay may.
abbrev pub SafeRelay : Option Relay → Type 0
SafeRelay none = Unit
SafeRelay (some r) = IsSafe r

-- What every ending of a session keeps.
abbrev pub Keeps : Stats → Ending → Type 0
Keeps s e = (e.stats.udp_assoc ≡ s.udp_assoc) × SafeRelay e.relay

module _ (lower_other : ℕ → ℕ) (parse_addr : Bytes → Option Addr) where
  pub run_event-Step :
      (e : RelayEvent) (r : Relay) → Step parse_addr r (run_event lower_other parse_addr e r)
  unfolding run_event
  run_event-Step (client_sends d written now from b) r = client_datagram d written now from b
  run_event-Step (tunnel_sends works now from b) r = tunnel_datagram works now from b
  run_event-Step (ticks now) r = tick now

  run_events-IsSafe :
      (es : List RelayEvent) (r : Relay)
      → IsSafe r
      → IsSafe (run_events lower_other parse_addr es r)
  unfolding run_events
  run_events-IsSafe [] r safe = safe
  run_events-IsSafe (e ∷ es) r safe =
      run_events-IsSafe es (run_event lower_other parse_addr e r)
        (Reach-IsSafe parse_addr safe (next here (run_event-Step e r)))

  run_event-udp_assoc :
      (e : RelayEvent) (r : Relay)
      → (run_event lower_other parse_addr e r).stats.udp_assoc ≡ r.stats.udp_assoc
  unfolding run_event from_tunnel watch_idle
  run_event-udp_assoc (client_sends d written now from b) r =
      elim (from_client-accounts parse_addr d written now from b r) [
        | inl dropped ↦ ground arith
        | inr sent ↦ ground (arith, sent.is_sent)
      ]
  run_event-udp_assoc (tunnel_sends works now from b) r = ground arith
  run_event-udp_assoc (ticks now) r = unfold close in ground arith

  run_events-udp_assoc :
      (es : List RelayEvent) (r : Relay)
      → (run_events lower_other parse_addr es r).stats.udp_assoc ≡ r.stats.udp_assoc
  unfolding run_events
  run_events-udp_assoc [] r = refl
  run_events-udp_assoc (e ∷ es) r =
      run_events-udp_assoc es (run_event lower_other parse_addr e r) ∙ run_event-udp_assoc e r

  new_udp_relay-stats :
      (now : ℕ) (declared : AddrPort) (s : Stats) → (new_udp_relay now declared s).stats ≡ s
  unfolding new_udp_relay
  new_udp_relay-stats now declared s = refl

  warm_up-same :
      (d : Dialer) (r : Relay)
      → let q = (warm_up d r).1 in
        (q.sent ≡ r.sent)
        × (q.delivered ≡ r.delivered)
        × (q.closed ≡ r.closed)
        × (q.has_map ≡ r.has_map)
        × (q.stats ≡ r.stats)
  unfolding warm_up
  warm_up-same d r = ground (
    arith,
    tunnel_conn-same parse_addr d false r,
    tunnel_conn-same parse_addr d true (tunnel_conn d false r).1,
  )

  associated-lem :
      (w : Surroundings) (c : Conn) (r : Relay)
      → IsSafe r
      → let e = associated lower_other parse_addr w c r in
        (e.stats.udp_assoc ≡ r.stats.udp_assoc) × SafeRelay e.relay
  unfolding associated
  associated-lem w c r safe =
      let opened = record r { stats = record r.stats { udp_assoc = r.stats.udp_assoc + 1 } } in
      let opened_safe : IsSafe opened = ground arith in
      let ran = run_events-IsSafe w.traffic opened opened_safe in
      ground (arith, run_events-udp_assoc w.traffic opened, ran)

  associate-Keeps :
      (w : Surroundings) (s : Stats) (c : Conn) (dest : Destination)
      → Keeps s (associate lower_other parse_addr w s c dest)
  unfolding associate
  associate-Keeps w s c dest =
      let r = new_udp_relay w.now (expected dest) s in
      let q = (warm_up w.dialer r).1 in
      let same = warm_up-same w.dialer r in
      let safe = new_udp_relay-IsSafe parse_addr w.now (expected dest) s here in
      let q_safe : IsSafe q = ground arith in
      let kept = associated-lem w c q q_safe in
      let old = new_udp_relay-stats w.now (expected dest) s in
      elim (Bool-cases w.udp_enabled) [
        | inr off ↦ ground arith
        | inl on ↦ elim (Option-cases w.listen_fails) [
          | inr (why, failed) ↦ ground arith
          | inl bound ↦ elim (Option-cases (warm_up w.dialer r).0) [
            | inr (why, failed) ↦ ground arith
            | inl up ↦ ground (arith, kept)
          ]
        ]
      ]

  dispatch-Keeps :
      (w : Surroundings) (s : Stats) (c : Conn) (cmd : ℕ) (dest : Destination)
      → Keeps s (dispatch lower_other parse_addr w s c cmd dest)
  unfolding dispatch serve_connect
  dispatch-Keeps w s c cmd dest =
      let kept = associate-Keeps w s c dest in
      let moved = connect-stats lower_other w.dialer s dest in ground (arith, kept)

  -- However a session ends, its association, if it had one, is counted off again, and its relay sent
  -- into the tunnel and to the client only what a relay may.
  pub handle-Keeps :
      (w : Surroundings) (s : Stats) (c : Conn) → Keeps s (handle lower_other parse_addr w s c)
  unfolding handle
  handle-Keeps w s c = elim (Result-cases (negotiate c).1) [
    | inr (why, failed) ↦ ground arith
    | inl (done, greeted) ↦
        let c' = (negotiate c).0 in
        elim (Result-cases (read_request parse_addr c').1) [
          | inr (why, failed) ↦ ground arith
          | inl ((cmd, dest), asked) ↦
              let kept = dispatch-Keeps w s (read_request parse_addr c').0 cmd dest in
              ground (arith, kept)
        ]
  ]
