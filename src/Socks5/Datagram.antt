-- ===== src/Socks5/Datagram.antt =====
-- internal/socks5/udp.go: the SOCKS5 UDP header. `netip.ParseAddr` is the parameter `parse_addr`.
pub mod Reading
pub mod RoundTrip
use awgsocks.Base.{
  ℕ, ◌+◌, ◌<◌, Bool, true, false, not, ◌&&◌, ◌||◌, List, [], ◌∷◌, ◌++◌, ◌≡◌, Option, none, some,
  Bytes, length, get_or, take, drop, ltb, ◌==◌, if◌then◌else◌, Result, ok, err, ◌>>=◌,
}
use awgsocks.Netip.{Addr, AddrPort, unset, v4, v6, unmap, get_u16, put_u16}
use awgsocks.Socks5.Target.{Destination, atyp_ipv4, atyp_ipv6, atyp_domain}

-- The errors of `parseUDPHeader`.
pub data HeaderError : Type 0 where
  too_short reserved_not_zero fragmented : HeaderError
  truncated_ipv4 truncated_ipv6 truncated_domain empty_domain : HeaderError
  unsupported_atyp : ℕ → HeaderError
  zero_port : HeaderError

-- The statement `if a, err := netip.ParseAddr(host); err == nil`.
abbrev pub set_host : Bytes → Option Addr → Destination
set_host host (some a) = record { host = []; addr = unmap a; port = 0 }
set_host host none = record { host = host; addr = unset; port = 0 }

module _ (parse_addr : Bytes → Option Addr) where
  read_domain : Bytes → Result HeaderError (Destination × Bytes)
  read_domain rest =
      if ltb (length rest) 1
      then err truncated_domain
      else (let l = get_or rest 0 0 in
          if l == 0
          then err empty_domain
          else if ltb (length rest) (1 + l + 2)
          then err truncated_domain
          else (let host = take l (drop 1 rest) in
              ok (set_host host (parse_addr host), drop (1 + l) rest)))

  -- The switch on ATYP: the destination so far, and the bytes behind the address.
  unfoldable pub read_address : ℕ → Bytes → Result HeaderError (Destination × Bytes)
  unfolding read_domain
  read_address kind rest =
      if kind == atyp_ipv4
      then (if ltb (length rest) 6
          then err truncated_ipv4
          else ok (record { host = []; addr = v4 (take 4 rest); port = 0 }, drop 4 rest))
      else if kind == atyp_ipv6
      then (if ltb (length rest) 18
          then err truncated_ipv6
          else ok (record { host = []; addr = v6 (take 16 rest) []; port = 0 }, drop 16 rest))
      else if kind == atyp_domain
      then read_domain rest
      else err (unsupported_atyp kind)

  unfoldable pub read_port : Destination × Bytes → Result HeaderError (Destination × Bytes)
  read_port (dst, rest) =
      if get_u16 (take 2 rest) == 0
      then err zero_port
      else ok (record dst { port = get_u16 (take 2 rest) }, drop 2 rest)

  unfoldable pub parse_udp_header : Bytes → Result HeaderError (Destination × Bytes)
  parse_udp_header b =
      if ltb (length b) 4
      then err too_short
      else if not (get_or b 0 0 == 0) || not (get_or b 1 0 == 0)
      then err reserved_not_zero
      else if not (get_or b 2 0 == 0)
      then err fragmented
      else (read_address (get_or b 3 0) (drop 4 b) >>= read_port)

-- The address part that `buildUDPHeader` and `writeReply` append.
abbrev pub udp_source : Addr → Bytes
udp_source (v4 b) = atyp_ipv4 ∷ b
udp_source (v6 b zone) = atyp_ipv6 ∷ b
udp_source unset = atyp_ipv6 ∷ 0 ∷ 0 ∷ 0 ∷ 0 ∷ 0 ∷ 0 ∷ 0 ∷ 0 ∷ 0 ∷ 0 ∷ 0 ∷ 0 ∷ 0 ∷ 0 ∷ 0 ∷ 0 ∷ []

-- `buildUDPHeader`: appended to `dst`.
unfoldable pub build_udp_header : Bytes → AddrPort → Bytes
build_udp_header dst src =
    (((dst ++ 0 ∷ 0 ∷ 0 ∷ []) ++ udp_source (unmap src.addr)) ++ put_u16 src.port)
