-- ===== src/Socks5/Relay.antt =====
-- internal/socks5/udp.go: the UDP relay of one association, one step for each datagram or tick. The
-- tunnel's and the sockets' answers come with the event.
pub mod Claim
pub mod Steps
pub mod Accounts
pub mod Owner
pub mod Uses
use awgsocks.Base.{
  ℕ, suc, ◌+◌, ◌%◌, Bool, true, false, not, ◌&&◌, ◌||◌, List, [], ◌∷◌, ◌++◌, ◌≡◌, Option, none,
  some, Bytes, codes, length, ltb, ◌==◌, if◌then◌else◌, Result, ok, err, equal,
}
use awgsocks.Netip.{
  addr_from_slice, Addr, AddrPort, unset, v4, v6, unmap, is_set, is6, is_loopback, is_unspecified,
  equal_addr_port,
}
use awgsocks.Socks5.Target.{Destination}
use awgsocks.Socks5.Failure.{GoError}
use awgsocks.Socks5.Stats.{Stats, add_u64}
use awgsocks.Socks5.Connect.{Dialer, Egress, looked_up, listened, sent_to, Use, through, routable}
use awgsocks.Socks5.Datagram.{HeaderError, parse_udp_header, build_udp_header}

-- `udpRelay`. `open4` and `open6` say for which family a tunnel socket is kept, and `has_map` that
-- the map of them has not been dropped; `sent` and `delivered` are the datagrams that went into the
-- tunnel and to the client, latest first; `uses` is what was asked of the tunnel, in order. Time is in nanoseconds.
pub record Relay : Type 0 where
  pub expect : AddrPort
  pub open4 : Bool
  pub open6 : Bool
  pub has_map : Bool
  pub closed : Bool
  pub last_active : ℕ
  pub stats : Stats
  pub sent : List (AddrPort × Bytes)
  pub delivered : List (AddrPort × Bytes)
  pub uses : List Use

abbrev pub drop_one : Relay → Relay
drop_one r = record r { stats = record r.stats { udp_dropped = add_u64 r.stats.udp_dropped 1 } }

-- `touch`.
abbrev pub touch : ℕ → Relay → Relay
touch now r = record r { last_active = now }

-- The association has not been claimed by an address.
abbrev pub is_unclaimed : AddrPort → Bool
is_unclaimed e = not (is_set e.addr) || is_unspecified e.addr || e.port == 0

-- `acceptFrom`.
unfoldable pub accept_from : AddrPort → Relay → Bool × Relay
accept_from from r =
    if not (is_loopback (unmap from.addr))
    then (false, r)
    else if is_unclaimed r.expect
    then (true, record r { expect = from })
    else (equal_addr_port r.expect from, r)

abbrev first_target : ℕ → List Addr → Option AddrPort
first_target port [] = none
first_target port (a ∷ rest) = some (record { addr = a; port = port })

-- What `resolve` does: it refuses, takes the address, or has the name looked up, with this answer.
pub data Resolution : Type 0 where
  refuses : Resolution
  takes : Addr → Resolution
  asks : Bytes → Result GoError (List Addr) → Resolution

unfoldable pub resolution : Dialer → Destination → Resolution
resolution d dst =
    if equal dst.host []
    then (let addr = unmap dst.addr in if not (is_unspecified addr) then takes addr else refuses)
    else if not d.has_dns
    then refuses
    else asks dst.host (d.lookup_host dst.host)

unfoldable pub resolved_target : ℕ → Resolution → Option AddrPort
resolved_target port refuses = none
resolved_target port (takes addr) = some (record { addr = addr; port = port })
resolved_target port (asks host (err e)) = none
resolved_target port (asks host (ok addrs)) = first_target port (routable addrs)

-- The lookup that it makes.
pub name_lookups : Resolution → List Egress
name_lookups refuses = []
name_lookups (takes addr) = []
name_lookups (asks host found) = looked_up host ∷ []

-- `resolve`, and its lookup in the relay's trace.
unfoldable pub resolve : Dialer → Destination → Option AddrPort
unfolding resolution resolved_target
resolve d dst = resolved_target dst.port (resolution d dst)

unfoldable pub with_lookup : Dialer → Destination → Relay → Relay
unfolding resolution name_lookups
with_lookup d dst r = record r { uses = r.uses ++ through d (name_lookups (resolution d dst)) }

abbrev is_open : Bool → Relay → Bool
is_open true r = r.open6
is_open false r = r.open4

abbrev keep_open : Bool → Relay → Relay
keep_open true r = record r { open6 = true }
keep_open false r = record r { open4 = true }

-- `errors.New("relay is closed")`.
abbrev relay_is_closed : GoError
relay_is_closed = record {
  tunnel_down = false;
  not_ready = false;
  no_dns = false;
  deadline_exceeded = false;
  canceled = false;
  message = codes "relay is closed";
}

-- `tunnelConn`: the error, if there is no socket for the family. Between its two locked parts the
-- code lets go of the lock; here both are one step.
unfoldable pub tunnel_conn : Dialer → Bool → Relay → Option GoError × Relay
tunnel_conn d ipv6 r =
    if not r.has_map
    then (some relay_is_closed, r)
    else if is_open ipv6 r
    then (none, r)
    else let asked = record r { uses = r.uses ++ ((d, listened ipv6) ∷ []) } in
      elim (d.listen_udp ipv6) [ some e ↦ (some e, asked) | none ↦ (none, keep_open ipv6 asked) ]

-- `warmUp`: the first error, if neither family has a socket.
unfoldable pub warm_up : Dialer → Relay → Option GoError × Relay
warm_up d r =
    let (first, q) = tunnel_conn d false r in
    let (second, p) = tunnel_conn d true q in
    elim first [
      | none ↦ (none, q)
      | some e ↦ elim second [ none ↦ (none, p) | some e' ↦ (some e, p) ]
    ]

-- What `WriteTo` on the tunnel socket answers: the bytes taken, or an error.
abbrev pub WriteResult : Type 0
WriteResult = Option ℕ

-- `forward`, behind `resolve` and `tunnelConn`.
abbrev write_to : Dialer → AddrPort → Relay → Relay
write_to d target r = record r { uses = r.uses ++ ((d, sent_to target) ∷ []) }

send_to : Dialer → AddrPort → Bytes → WriteResult → Option GoError × Relay → Relay
send_to d target payload written (some e, r) = drop_one r
send_to d target payload none (none, r) = drop_one (write_to d target r)
send_to d target payload (some n) (none, r) = record (write_to d target r) {
  stats = record r.stats {
    udp_sent = add_u64 r.stats.udp_sent 1;
    udp_bytes_up = add_u64 r.stats.udp_bytes_up n;
  };
  sent = (target, payload) ∷ r.sent;
}

unfoldable pub forward : Dialer → WriteResult → Destination → Bytes → Relay → Relay
unfolding send_to
forward d written dst payload r = elim (resolve d dst) [
  | none ↦ drop_one (with_lookup d dst r)
  | some target ↦
      send_to d target payload written (tunnel_conn d (is6 target.addr) (with_lookup d dst r))
]

module _ (parse_addr : Bytes → Option Addr) where
  forward_parsed : Dialer → WriteResult → Result HeaderError (Destination × Bytes) → Relay → Relay
  forward_parsed d written (err e) r = drop_one r
  forward_parsed d written (ok (dst, payload)) r = forward d written dst payload r

  -- One round of `pumpFromClient`: a datagram `b` from `from` at `now`.
  unfoldable pub from_client : Dialer → WriteResult → ℕ → AddrPort → Bytes → Relay → Relay
  unfolding forward_parsed
  from_client d written now from b r =
      let (accepted, r') = accept_from from (touch now r) in
      if not accepted
      then drop_one r'
      else forward_parsed d written (parse_udp_header parse_addr b) r'

-- A `net.Addr`: a `*net.UDPAddr` with its IP and port, or another, with what `ParseAddrPort` makes of
-- its text.
pub data NetAddr : Type 0 where
  udp_addr : Bytes → ℕ → NetAddr
  other_addr : Option AddrPort → NetAddr

-- `addrPortOf`.
unfoldable pub addr_port_of : NetAddr → Option AddrPort
addr_port_of (udp_addr ip port) = elim (addr_from_slice ip) [
  | none ↦ none
  | some a ↦ some (record { addr = unmap a; port = port % 65536 })
]
addr_port_of (other_addr parsed) = parsed

-- `loopbackPacketConn.WriteToUDPAddrPort`; `works` is the answer of the socket below.
unfoldable pub write_to_client : Bool → Bytes → AddrPort → Relay → Bool × Relay
write_to_client works b addr r =
    if not (is_loopback (unmap addr.addr))
    then (false, r)
    else if works
    then (true, record r { delivered = (addr, b) ∷ r.delivered })
    else (false, r)

deliver : Bool → AddrPort → Bytes → Relay → Relay
unfolding write_to_client
deliver works src b r =
    let counted = record r {
      stats = record r.stats {
        udp_received = add_u64 r.stats.udp_received 1;
        udp_bytes_down = add_u64 r.stats.udp_bytes_down (length b);
      };
    } in
    let (written, r') = write_to_client works (build_udp_header [] src ++ b) r.expect counted in
    if written then r' else drop_one r'

-- One round of `pumpFromTunnel`.
unfoldable pub from_tunnel : Bool → ℕ → NetAddr → Bytes → Relay → Relay
unfolding deliver
from_tunnel works now from b r = elim (addr_port_of from) [
  | none ↦ touch now r
  | some src ↦
      if not (is_set r.expect.addr) || r.expect.port == 0
      then touch now r
      else deliver works src b (touch now r)
]

-- `Close`.
unfoldable pub close : Relay → Relay
close r =
    if r.closed
    then r
    else record r { closed = true; has_map = false; open4 = false; open6 = false }

-- `udpIdleTimeout`, five minutes.
abbrev pub udp_idle_timeout : ℕ
udp_idle_timeout = 300000000000

-- A tick of `watchIdle`.
unfoldable pub watch_idle : ℕ → Relay → Relay
unfolding close
watch_idle now r = if ltb (r.last_active + udp_idle_timeout) now then close r else r

-- `newUDPRelay`.
unfoldable pub new_udp_relay : ℕ → AddrPort → Stats → Relay
new_udp_relay now declared s = record {
  expect = declared;
  open4 = false;
  open6 = false;
  has_map = true;
  closed = false;
  last_active = now;
  stats = s;
  sent = [];
  delivered = [];
  uses = [];
}
