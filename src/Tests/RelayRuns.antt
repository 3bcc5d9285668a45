-- ===== src/Tests/RelayRuns.antt =====
-- The datagrams and relays of internal/socks5/udp.go.
use awgsocks.Base.{◌≡◌, ◌⊎◌, refl, true, false, [], ◌∷◌, ◌++◌, Option, none, some, Bytes, ok, arith}
use awgsocks.Netip.{Addr, AddrPort, no_addr_port, v4, v6, unmap}
use awgsocks.Socks5.Target.{ipv4, meaning}
use awgsocks.Socks5.Stats.{zero_stats}
use awgsocks.Socks5.Connect.{Dialer}
use awgsocks.Socks5.Datagram.{parse_udp_header, build_udp_header, read_address, read_port}
use awgsocks.Socks5.Datagram.Reading.{datagram}
use awgsocks.Socks5.Datagram.RoundTrip.{parse-build_udp_header}
use awgsocks.Socks5.Relay.{Relay, from_client, new_udp_relay}
use awgsocks.Socks5.Relay.Steps.{client_datagram, here, next, IsSafe, new_udp_relay-IsSafe}
use awgsocks.Socks5.Relay.Accounts.{IsDropped, GoesOut, from_client-accounts}

abbrev unparsed : Bytes → Option Addr
unparsed s = none

abbrev peer : Bytes
peer = 10 ∷ 0 ∷ 0 ∷ 7 ∷ []

abbrev payload : Bytes
payload = 1 ∷ 2 ∷ 3 ∷ []

abbrev client : AddrPort
client = record { addr = v4 (127 ∷ 0 ∷ 0 ∷ 1 ∷ []); port = 50000 }

abbrev stranger : AddrPort
stranger = record { addr = v4 (192 ∷ 168 ∷ 1 ∷ 9 ∷ []); port = 50000 }

abbrev tunnel : Dialer
tunnel = record {
  has_dns = false;
  lookup_host = λ h. ok [];
  dial_tcp = λ n t. none;
  listen_udp = λ v. none;
}

abbrev owned : Relay
owned = record {
  expect = client;
  open4 = true;
  open6 = false;
  has_map = true;
  closed = false;
  last_active = 5;
  stats = zero_stats;
  sent = [];
  delivered = [];
  uses = [];
}

abbrev unowned : Relay
unowned = record owned { expect = no_addr_port }

parse_run :
    parse_udp_header unparsed (datagram (ipv4 peer) 6881 payload)
    ≡ ok (meaning unparsed (ipv4 peer) 6881, payload)
unfolding parse_udp_header read_address read_port
parse_run = refl

abbrev mapped : AddrPort
mapped = record {
  addr = v6 (0 ∷ 0 ∷ 0 ∷ 0 ∷ 0 ∷ 0 ∷ 0 ∷ 0 ∷ 0 ∷ 0 ∷ 255 ∷ 255 ∷ peer) [];
  port = 6881;
}

parse-build_udp_header_example :
    parse_udp_header unparsed (build_udp_header [] mapped ++ payload)
    ≡ ok (record { host = []; addr = v4 peer; port = 6881 }, payload)
unfolding unmap
parse-build_udp_header_example =
    parse-build_udp_header unparsed mapped payload (omega arith) (omega arith) (omega arith)

new_udp_relay-IsSafe_example : IsSafe (
    from_client unparsed tunnel
      (some 3)
      1
      client
      (datagram (ipv4 peer) 6881 payload)
      (new_udp_relay 0 stranger zero_stats))
new_udp_relay-IsSafe_example =
    new_udp_relay-IsSafe unparsed 0 stranger zero_stats
      (next here (client_datagram tunnel (some 3) 1 client (datagram (ipv4 peer) 6881 payload)))

from_client-accounts_example :
    IsDropped owned
      (from_client unparsed tunnel (some 3) 9 client (datagram (ipv4 peer) 6881 payload) owned)
    ⊎ GoesOut unparsed tunnel
        (some 3)
        9
        client
        (datagram (ipv4 peer) 6881 payload)
        owned
        (from_client unparsed tunnel (some 3) 9 client (datagram (ipv4 peer) 6881 payload) owned)
from_client-accounts_example =
    from_client-accounts unparsed tunnel (some 3) 9 client (datagram (ipv4 peer) 6881 payload) owned
