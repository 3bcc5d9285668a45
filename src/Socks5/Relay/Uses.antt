-- ===== src/Socks5/Relay/Uses.antt =====
-- What a relay asks of the tunnel, over every history of it.
use awgsocks.Base.{
  refl, ℕ, ◌<◌, ◌≡◌, ◌≢◌, true, false, arith, Bool, Option, some, none, List, [], ◌∷◌, ◌++◌, Bytes,
  All, All-append, Bool-cases, Option-cases, Result-cases, inl, inr, equal, equal_self, subst, sym,
}
use awgsocks.Netip.{Addr, AddrPort, is6, is_unspecified}
use awgsocks.Socks5.Target.{Destination}
use awgsocks.Socks5.Failure.{GoError}
use awgsocks.Socks5.Connect.{Dialer, looked_up, dialed, listened, sent_to, Use, through}
use awgsocks.Socks5.Datagram.Reading.{parse-port_pos}
use awgsocks.Socks5.Datagram.{parse_udp_header}
use awgsocks.Socks5.Relay.{
  Relay, WriteResult, accept_from, resolution, name_lookups, with_lookup, resolve, tunnel_conn,
  forward, send_to, warm_up, from_client, from_tunnel, close, watch_idle, touch,
}
use awgsocks.Socks5.Relay.Steps.{
  Step, client_datagram, tunnel_datagram, tick, close_now, accept_from-same, resolve-routable,
}

-- A use that a relay may make of the dialer that it has at that time.
abbrev pub RelayMay : Use → Type 0
RelayMay (d, looked_up h) = (h ≢ []) × (d.has_dns ≡ true)
RelayMay (d, dialed t) = ⊥
RelayMay (d, listened v) = Unit
RelayMay (d, sent_to t) = (is_unspecified t.addr ≡ false) × (0 < t.port)

abbrev pub IsModest : Relay → Type 0
IsModest r = All RelayMay r.uses

one_more : (us : List Use) (u : Use) → All RelayMay us → RelayMay u → All RelayMay (us ++ (u ∷ []))
one_more us u h may = All-append RelayMay us (u ∷ []) h (may, tt)

named : (h : Bytes) → equal h [] ≡ false → h ≢ []
named h e same = ground (arith, e, equal_self h, same)

name_lookups-RelayMay :
    (d : Dialer) (dst : Destination) → All RelayMay (through d (name_lookups (resolution d dst)))
unfolding resolution name_lookups
name_lookups-RelayMay d dst = elim (Bool-cases (equal dst.host [])) [
  | inl address ↦ ground (arith, address)
  | inr name ↦ elim (Bool-cases d.has_dns) [
    | inr off ↦ rw (name, off) tt
    | inl on ↦ rw (name, on) ((named dst.host name, refl), tt)
  ]
]

with_lookup-IsModest :
    (d : Dialer) (dst : Destination) (r : Relay) → IsModest r → IsModest (with_lookup d dst r)
unfolding with_lookup
with_lookup-IsModest d dst r h = All-append RelayMay r.uses _ h (name_lookups-RelayMay d dst)

tunnel_conn-IsModest :
    (d : Dialer) (v : Bool) (r : Relay) → IsModest r → IsModest (tunnel_conn d v r).1
unfolding tunnel_conn
tunnel_conn-IsModest d false r h = ground (arith, h, one_more r.uses (d, listened false) h tt)
tunnel_conn-IsModest d true r h = ground (arith, h, one_more r.uses (d, listened true) h tt)

pub warm_up-IsModest : (d : Dialer) (r : Relay) → IsModest r → IsModest (warm_up d r).1
unfolding warm_up
warm_up-IsModest d r h =
    let first = tunnel_conn-IsModest d false r h in
    let second = tunnel_conn-IsModest d true (tunnel_conn d false r).1 first in
    elim (Option-cases (tunnel_conn d false r).0) [
      | inl up ↦ rw (up, warm_up) first
      | inr (e, down) ↦ elim (Option-cases (tunnel_conn d true (tunnel_conn d false r).1).0) [
        | inl up ↦ rw (down, up, warm_up) second
        | inr (e', down') ↦ rw (down, down', warm_up) second
      ]
    ]

send_to-IsModest :
    (d : Dialer) (t : AddrPort) (payload : Bytes) (written : WriteResult)
    (p : Option GoError × Relay)
    → (is_unspecified t.addr ≡ false) × (0 < t.port)
    → IsModest p.1
    → IsModest (send_to d t payload written p)
unfolding send_to
send_to-IsModest d t payload written (some e, r) may h = h
send_to-IsModest d t payload none (none, r) may h = one_more r.uses (d, sent_to t) h may
send_to-IsModest d t payload (some n) (none, r) may h = one_more r.uses (d, sent_to t) h may

forward-IsModest :
    (d : Dialer) (written : WriteResult) (dst : Destination) (payload : Bytes) (r : Relay)
    → 0 < dst.port
    → IsModest r
    → IsModest (forward d written dst payload r)
unfolding forward
forward-IsModest d written dst payload r pos h =
    let asked = with_lookup-IsModest d dst r h in
    elim (Option-cases (resolve d dst)) [
      | inl nowhere ↦ rw (nowhere, forward) asked
      | inr (t, found) ↦
          let (specified, port) = resolve-routable d dst t found in
          rw (found, forward)
            (send_to-IsModest d t payload written (tunnel_conn d (is6 t.addr) (with_lookup d dst r))
              (specified, ground (arith, pos, port))
              (tunnel_conn-IsModest d (is6 t.addr) (with_lookup d dst r) asked))
    ]

module _ (parse_addr : Bytes → Option Addr) where
  from_client-IsModest :
      (d : Dialer) (written : WriteResult) (now : ℕ) (from : AddrPort) (b : Bytes) (r : Relay)
      → IsModest r
      → IsModest (from_client parse_addr d written now from b r)
  unfolding from_client
  from_client-IsModest d written now from b r h =
      let q = (accept_from from (touch now r)).1 in
      let same = accept_from-same parse_addr from (touch now r) in
      let ready : IsModest q = subst (λ s. IsModest s) (sym same) h in
      elim (Bool-cases (accept_from from (touch now r)).0) [
        | inr refused ↦ rw refused ready
        | inl accepted ↦ elim (Result-cases (parse_udp_header parse_addr b)) [
          | inr (why, failed) ↦ rw (accepted, failed) ready
          | inl ((dst, payload), done) ↦
              rw (accepted, done)
                (forward-IsModest d written dst payload q
                  (parse-port_pos parse_addr b dst payload done) ready)
        ]
      ]

  pub Step-IsModest : {q s : Relay} → Step parse_addr q s → IsModest q → IsModest s
  unfolding from_tunnel watch_idle close
  Step-IsModest {q} (client_datagram d written now from b) h =
      from_client-IsModest d written now from b q h
  Step-IsModest (tunnel_datagram works now from b) h = ground arith
  Step-IsModest (tick now) h = ground arith
  Step-IsModest close_now h = ground arith
