-- ===== src/Socks5/Datagram/RoundTrip.antt =====
-- The header that the relay writes, read back by the header parser.
use awgsocks.Base.{ℕ, ◌<◌, [], ◌∷◌, ◌++◌, ◌≡◌, refl, Option, Bytes, ok, append_assoc}
use awgsocks.Netip.{Addr, AddrPort, put_u16, zeros, WellFormed, unset, v4, v6, unmap}
use awgsocks.Socks5.Target.{ipv4, ipv6}
use awgsocks.Socks5.Datagram.{parse_udp_header, build_udp_header, udp_source}
use awgsocks.Socks5.Datagram.Reading.{parse-datagram}

-- What a header can carry of an address: its octets, and no zone.
abbrev pub octets_of : Addr → Addr
octets_of (v6 b zone) = v6 b []
octets_of (v4 b) = v4 b
octets_of unset = v6 (0 ∷ 0 ∷ 0 ∷ 0 ∷ 0 ∷ 0 ∷ 0 ∷ 0 ∷ 0 ∷ 0 ∷ 0 ∷ 0 ∷ 0 ∷ 0 ∷ 0 ∷ 0 ∷ []) []

module _ (parse_addr : Bytes → Option Addr) where
  parse-udp_source :
      (a : Addr) (port : ℕ) (payload : Bytes)
      → WellFormed a
      → 0 < port
      → port < 65536
      → parse_udp_header parse_addr (0 ∷ 0 ∷ 0 ∷ (udp_source a ++ put_u16 port ++ payload))
        ≡ ok (record { host = []; addr = octets_of a; port = port }, payload)
  parse-udp_source unset port payload w pos small =
      parse-datagram parse_addr (ipv6 (zeros 16)) port payload refl pos small
  parse-udp_source (v4 b) port payload w pos small =
      rw append_assoc (parse-datagram parse_addr (ipv4 b) port payload w.0 pos small)
  parse-udp_source (v6 b zone) port payload w pos small =
      rw append_assoc (parse-datagram parse_addr (ipv6 b) port payload w.0 pos small)

  -- A header for a well-formed source and a port that is not 0, with any payload behind it, is
  -- read back as the unmapped source without its zone, the port and the payload.
  pub parse-build_udp_header :
      (src : AddrPort) (payload : Bytes)
      → WellFormed (unmap src.addr)
      → 0 < src.port
      → src.port < 65536
      → parse_udp_header parse_addr (build_udp_header [] src ++ payload)
        ≡ ok (record { host = []; addr = octets_of (unmap src.addr); port = src.port }, payload)
  unfolding build_udp_header
  parse-build_udp_header src payload w pos small =
      parse-udp_source (unmap src.addr) src.port payload w pos small
