-- ===== src/Socks5/Relay/Steps.antt =====
-- Histories of a relay, in any order of datagrams, ticks and closing, and what holds after each.
use awgsocks.Base.{
  ℕ, ◌<◌, ◌≡◌, Bool, true, false, refl, arith, ◌&&◌, Option, some, List, [], ◌∷◌, Bytes, All,
  Bool-cases, inl, inr, equal, Option-cases, Result-cases,
}
use awgsocks.Netip.{Addr, AddrPort, is6, is_unspecified}
use awgsocks.Socks5.Target.{Destination}
use awgsocks.Socks5.Stats.{Stats}
use awgsocks.Socks5.Connect.{Dialer, routable}
use awgsocks.Socks5.Datagram.Reading.{parse-port_pos}
use awgsocks.Socks5.Datagram.{parse_udp_header}
use awgsocks.Socks5.Relay.{
  Relay, NetAddr, WriteResult, first_target, accept_from, resolve, resolution, resolved_target,
  with_lookup, tunnel_conn, forward, from_client, from_tunnel, close, watch_idle, new_udp_relay,
  touch,
}
use awgsocks.Socks5.Relay.Claim.{IsLocal}

-- One step, with whatever the tunnel and the sockets answer at that time.
pub data Step (parse_addr : Bytes → Option Addr) (r : Relay) : Relay → Type 0 where
  client_datagram :
      (d : Dialer) (written : WriteResult) (now : ℕ) (from : AddrPort) (b : Bytes)
      → Step parse_addr r (from_client parse_addr d written now from b r)
  tunnel_datagram :
      (works : Bool) (now : ℕ) (from : NetAddr) (b : Bytes)
      → Step parse_addr r (from_tunnel works now from b r)
  tick : (now : ℕ) → Step parse_addr r (watch_idle now r)
  close_now : Step parse_addr r (close r)

pub data Reach (parse_addr : Bytes → Option Addr) (r : Relay) : Relay → Type 0 where
  here : Reach parse_addr r r
  next : {q s : Relay} → Reach parse_addr r q → Step parse_addr q s → Reach parse_addr r s

-- A datagram that may enter the tunnel.
abbrev pub MaySend : AddrPort × Bytes → Type 0
MaySend p = (is_unspecified p.0.addr ≡ false) × (0 < p.0.port)

abbrev pub MayDeliver : AddrPort × Bytes → Type 0
MayDeliver p = IsLocal p.0

pub record IsSafe (r : Relay) : Type 0 where
  pub sends : All MaySend r.sent
  pub delivers : All MayDeliver r.delivered
  pub ends : (r.closed && r.has_map) ≡ false

routable-specified : (addrs : List Addr) → All (λ a. is_unspecified a ≡ false) (routable addrs)
unfolding routable
routable-specified [] = tt
routable-specified (a ∷ addrs) = ground (arith, routable-specified addrs)

first_target-specified :
    (port : ℕ) (addrs : List Addr) (t : AddrPort)
    → All (λ a. is_unspecified a ≡ false) addrs
    → first_target port addrs ≡ some t
    → (is_unspecified t.addr ≡ false) × (t.port ≡ port)
first_target-specified port [] t h e = cc
first_target-specified port (a ∷ rest) t h e = ground arith

pub resolve-routable :
    (d : Dialer) (dst : Destination) (t : AddrPort)
    → resolve d dst ≡ some t
    → (is_unspecified t.addr ≡ false) × (t.port ≡ dst.port)
unfolding resolve resolution resolved_target
resolve-routable d dst t e = elim (Bool-cases (equal dst.host [])) [
  | inl address ↦ ground arith
  | inr named ↦ elim (Result-cases (d.lookup_host dst.host)) [
    | inl (addrs, found) ↦
        ground
          (arith, first_target-specified dst.port (routable addrs) t (routable-specified addrs))
    | inr (why, failed) ↦ absurd (ground arith)
  ]
]

module _ (parse_addr : Bytes → Option Addr) where
  -- `accept_from` changes the owner only.
  pub accept_from-same :
      (from : AddrPort) (r : Relay)
      → (accept_from from r).1 ≡ record r { expect = (accept_from from r).1.expect }
  unfolding accept_from
  accept_from-same from r = ground arith

  pub tunnel_conn-same :
      (d : Dialer) (v : Bool) (r : Relay)
      → let q = (tunnel_conn d v r).1 in
        (q.sent ≡ r.sent)
        × (q.delivered ≡ r.delivered)
        × (q.closed ≡ r.closed)
        × (q.has_map ≡ r.has_map)
        × (q.expect ≡ r.expect)
        × (q.stats ≡ r.stats)
  unfolding tunnel_conn
  tunnel_conn-same d false r = ground arith
  tunnel_conn-same d true r = ground arith

  forward-IsSafe :
      (d : Dialer) (written : WriteResult) (dst : Destination) (payload : Bytes) (r : Relay)
      → 0 < dst.port
      → IsSafe r
      → IsSafe (forward d written dst payload r)
  unfolding forward with_lookup
  forward-IsSafe d written dst payload r pos safe = elim (Option-cases (resolve d dst)) [
    | inl nowhere ↦ ground arith
    | inr (t, found) ↦ ground (
      arith,
      resolve-routable d dst t found,
      tunnel_conn-same d (is6 t.addr) (with_lookup d dst r),
    )
  ]

  from_client-IsSafe :
      (d : Dialer) (written : WriteResult) (now : ℕ) (from : AddrPort) (b : Bytes) (r : Relay)
      → IsSafe r
      → IsSafe (from_client parse_addr d written now from b r)
  unfolding from_client
  from_client-IsSafe d written now from b r safe =
      let q = (accept_from from (touch now r)).1 in
      let same = accept_from-same from (touch now r) in
      let ready : IsSafe q = ground arith in
      elim (Result-cases (parse_udp_header parse_addr b)) [
        | inr (why, failed) ↦ ground arith
        | inl ((dst, payload), done) ↦ ground (
          arith,
          forward-IsSafe d written dst payload q (parse-port_pos parse_addr b dst payload done)
              ready,
        )
      ]

  from_tunnel-IsSafe :
      (works : Bool) (now : ℕ) (from : NetAddr) (b : Bytes) (r : Relay)
      → IsSafe r
      → IsSafe (from_tunnel works now from b r)
  unfolding from_tunnel
  from_tunnel-IsSafe works now from b r safe = ground arith

  close-IsSafe : (r : Relay) → IsSafe r → IsSafe (close r)
  unfolding close
  close-IsSafe r safe = ground arith

  watch_idle-IsSafe : (now : ℕ) (r : Relay) → IsSafe r → IsSafe (watch_idle now r)
  unfolding watch_idle
  watch_idle-IsSafe now r safe = ground (arith, close-IsSafe r safe)

  Step-IsSafe : {q s : Relay} → Step parse_addr q s → IsSafe q → IsSafe s
  Step-IsSafe (client_datagram d written now from b) safe =
      from_client-IsSafe d written now from b _ safe
  Step-IsSafe (tunnel_datagram works now from b) safe = from_tunnel-IsSafe works now from b _ safe
  Step-IsSafe (tick now) safe = watch_idle-IsSafe now _ safe
  Step-IsSafe close_now safe = close-IsSafe _ safe

  pub Reach-IsSafe : {r s : Relay} → IsSafe r → Reach parse_addr r s → IsSafe s
  Reach-IsSafe safe here = safe
  Reach-IsSafe safe (next path step) = Step-IsSafe step (Reach-IsSafe safe path)

  -- Whatever a new relay is sent, from whichever side and in whichever order, it sends into the tunnel
  -- only to addresses that are neither 0.0.0.0 nor ::, at a port that is not 0, and delivers only to
  -- addresses of this machine, even if the client declared another.
  pub new_udp_relay-IsSafe :
      (now : ℕ) (declared : AddrPort) (st : Stats) {s : Relay}
      → Reach parse_addr (new_udp_relay now declared st) s
      → IsSafe s
  unfolding new_udp_relay
  new_udp_relay-IsSafe now declared st path =
      Reach-IsSafe (record { sends = tt; delivers = tt; ends = refl }) path
