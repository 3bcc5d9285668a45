-- ===== src/Socks5/Session.antt =====
-- internal/socks5/server.go: the greeting, the request and the reply on the client's connection.
pub mod Greeting
pub mod Request
use awgsocks.Base.{
  ℕ, ◌+◌, Bool, true, false, not, ◌&&◌, ◌||◌, List, [], ◌∷◌, ◌++◌, ◌≡◌, Option, none, some, Bytes,
  length, get_or, take, drop, ltb, ◌==◌, if◌then◌else◌, Result, ok, err, ◌>>=◌,
}
use awgsocks.Netip.{Addr, AddrPort, no_addr_port, unset, v4, v6, unmap, get_u16, put_u16}
use awgsocks.Socks5.Target.{
  Destination, atyp_ipv4, atyp_ipv6, atyp_domain, socks_version, method_no_auth,
  method_no_acceptable,
}
use awgsocks.Socks5.Datagram.{set_host}
use awgsocks.Socks5.Failure.{rep_addr_type_not_supported}

-- The client's end of a session. `input` is what it sends before it stops, closes or runs into the
-- deadline; `broken` says that writes to it fail, and `expired` that no deadline can be set.
pub record Conn : Type 0 where
  pub input : Bytes
  pub output : Bytes
  pub broken : Bool
  pub expired : Bool

-- `io.ReadFull` into a buffer of `n` bytes. What a short read has taken is never looked at again.
unfoldable pub read_full : ℕ → Conn → Option (Bytes × Conn)
read_full n c =
    if ltb (length c.input) n
    then none
    else some (take n c.input, record c { input = drop n c.input })

abbrev pub write : Bytes → Conn → Conn
write b c = if c.broken then c else record c { output = c.output ++ b }

pub data SessionError : Type 0 where
  short_greeting no_method short_methods not_acceptable write_failed : SessionError
  bad_version bad_atyp : ℕ → SessionError
  short_header short_ipv4 short_ipv6 short_length empty_name short_name short_port : SessionError

-- The loop over the offered methods.
unfoldable pub offer : Bytes → Conn → Conn × Result SessionError (Unit {0})
offer [] c = (write (socks_version ∷ method_no_acceptable ∷ []) c, err not_acceptable)
offer (m ∷ methods) c =
    let rest = offer methods c in
    if m == method_no_auth
    then (
      write (socks_version ∷ method_no_auth ∷ []) c,
      (if c.broken then err write_failed else ok tt),
    )
    else rest

unfoldable pub negotiate : Conn → Conn × Result SessionError (Unit {0})
negotiate c = elim (read_full 2 c) [
  | none ↦ (c, err short_greeting)
  | some (header, c') ↦
      if not (get_or header 0 0 == socks_version)
      then (c', err (bad_version (get_or header 0 0)))
      else if get_or header 1 0 == 0
      then (c', err no_method)
      else elim (read_full (get_or header 1 0) c') [
        | none ↦ (c', err short_methods)
        | some (methods, c'') ↦ offer methods c''
      ]
]

-- The address part of a reply.
abbrev pub bound_field : Addr → Bytes
bound_field (v4 b) = atyp_ipv4 ∷ b
bound_field (v6 b zone) = atyp_ipv6 ∷ b
bound_field unset = atyp_ipv4 ∷ 0 ∷ 0 ∷ 0 ∷ 0 ∷ []

unfoldable pub reply_bytes : ℕ → AddrPort → Bytes
reply_bytes rep bound =
    ((socks_version ∷ rep ∷ 0 ∷ []) ++ bound_field bound.addr) ++ put_u16 bound.port

-- `writeReply`, and `reply` without its deadline. The test is whether the write succeeded.
unfoldable pub write_reply : Conn → ℕ → AddrPort → Conn × Bool
unfolding reply_bytes
write_reply c rep bound = (write (reply_bytes rep bound) c, not c.broken)

module _ (parse_addr : Bytes → Option Addr) where
  unfoldable pub read_name : Conn → Conn × Result SessionError Destination
  read_name c = elim (read_full 1 c) [
    | none ↦ (c, err short_length)
    | some (len, c') ↦
        if get_or len 0 0 == 0 then (c', err empty_name) else elim (read_full (get_or len 0 0) c') [
          | none ↦ (c', err short_name)
          | some (name, c'') ↦ (c'', ok (set_host name (parse_addr name)))
        ]
  ]

  -- The switch on the address type.
  unfoldable pub read_dest : ℕ → Conn → Conn × Result SessionError Destination
  unfolding read_name
  read_dest kind c =
      if kind == atyp_ipv4
      then elim (read_full 4 c) [
        | none ↦ (c, err short_ipv4)
        | some (b, c') ↦ (c', ok (record { host = []; addr = v4 b; port = 0 }))
      ]
      else if kind == atyp_ipv6
      then elim (read_full 16 c) [
        | none ↦ (c, err short_ipv6)
        | some (b, c') ↦ (c', ok (record { host = []; addr = v6 b []; port = 0 }))
      ]
      else if kind == atyp_domain
      then read_name c
      else ((write_reply c rep_addr_type_not_supported no_addr_port).0, err (bad_atyp kind))

  unfoldable pub read_dest_port :
      ℕ → Conn × Result SessionError Destination → Conn × Result SessionError (ℕ × Destination)
  read_dest_port cmd (c, err e) = (c, err e)
  read_dest_port cmd (c, ok dest) = elim (read_full 2 c) [
    | none ↦ (c, err short_port)
    | some (b, c') ↦ (c', ok (cmd, record dest { port = get_u16 b }))
  ]

  unfoldable pub read_request : Conn → Conn × Result SessionError (ℕ × Destination)
  read_request c = elim (read_full 4 c) [
    | none ↦ (c, err short_header)
    | some (header, c') ↦
        if not (get_or header 0 0 == socks_version)
        then (c', err (bad_version (get_or header 0 0)))
        else read_dest_port (get_or header 1 0) (read_dest (get_or header 3 0) c')
  ]
