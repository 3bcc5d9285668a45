-- ===== src/Socks5/Datagram/Reading.antt =====
-- The header parser against the RFC's layout.
use awgsocks.Base.{
  ℕ, ◌+◌, ◌≤◌, ◌<◌, false, [], ◌∷◌, ◌++◌, ◌≡◌, refl, sym, Option, get_or, Bool-cases, inl, inr,
  Bytes, IsBytes, All-append_right, length, take, drop, ltb, ◌==◌, Result-cases, ok, arith,
  take-append, drop-append, length-append, take-append-drop, length-take, length-drop, drop-add_one,
}
use awgsocks.Netip.{Addr, v4, v6, get_u16, put_u16}
use awgsocks.Socks5.Target.{
  Destination, Target, ipv4, ipv6, domain, IsTarget, atyp, field, meaning, atyp_ipv4, atyp_ipv6,
  atyp_domain,
}
use awgsocks.Socks5.Datagram.{read_domain, read_address, read_port, parse_udp_header}

-- The datagram of RFC 1928, section 7.
abbrev pub datagram : Target → ℕ → Bytes → Bytes
datagram t port payload = 0 ∷ 0 ∷ 0 ∷ atyp t ∷ (field t ++ (put_u16 port ++ payload))

pub get-put : (port : ℕ) → port < 65536 → get_u16 (put_u16 port) ≡ port
get-put port small = omega arith

module _ (parse_addr : Bytes → Option Addr) where
  read_address-field :
      (t : Target) (port : ℕ) (payload : Bytes)
      → IsTarget t
      → read_address parse_addr (atyp t) (field t ++ (put_u16 port ++ payload))
        ≡ ok (meaning parse_addr t 0, put_u16 port ++ payload)
  unfolding read_address
  read_address-field (ipv4 b) port payload h =
      let rest = put_u16 port ++ payload in
      ground (arith, length-append b rest, take-append b rest 4 h, drop-append b rest 4 h)
  read_address-field (ipv6 b) port payload h =
      let rest = put_u16 port ++ payload in
      ground (arith, length-append b rest, take-append b rest 16 h, drop-append b rest 16 h)
  read_address-field (domain n) port payload h =
      let rest = put_u16 port ++ payload in
      ground (
        arith,
        length-append n rest,
        take-append n rest (length n) refl,
        drop-append (length n ∷ n) rest (1 + length n) (omega arith),
      )

  pub meaning-port :
      (t : Target) (port : ℕ)
      → record (meaning parse_addr t 0) { port = port } ≡ meaning parse_addr t port
  meaning-port (ipv4 b) port = refl
  meaning-port (ipv6 b) port = refl
  meaning-port (domain n) port = ground arith

  read_port-put :
      (dst : Destination) (port : ℕ) (payload : Bytes)
      → 0 < port
      → port < 65536
      → read_port parse_addr (dst, put_u16 port ++ payload)
        ≡ ok (record dst { port = port }, payload)
  unfolding read_port
  read_port-put dst port payload pos small = ground (arith, get-put port small)

  -- Every datagram of RFC 1928 for a target that fits its field, with a port that is not 0 and fits 16
  -- bits, is read as what the target means, the port and the payload, whatever the payload.
  pub parse-datagram :
      (t : Target) (port : ℕ) (payload : Bytes)
      → IsTarget t
      → 0 < port
      → port < 65536
      → parse_udp_header parse_addr (datagram t port payload)
        ≡ ok (meaning parse_addr t port, payload)
  unfolding parse_udp_header
  parse-datagram t port payload h pos small = ground (
    arith,
    read_address-field t port payload h,
    read_port-put (meaning parse_addr t 0) port payload pos small,
    meaning-port t port,
  )

  -- What an accepted address part is.
  abbrev IsAddressOf : ℕ → Bytes → Destination → Bytes → Target → Type 0
  IsAddressOf kind rest dst more t =
      IsTarget t
      × (kind ≡ atyp t)
      × (rest ≡ field t ++ more)
      × (dst ≡ meaning parse_addr t 0)
      × (2 ≤ length more)

  read_ipv4-eq-ok :
      (rest : Bytes)
      → ltb (length rest) 6 ≡ false
      → IsAddressOf atyp_ipv4 rest
          (record { host = []; addr = v4 (take 4 rest); port = 0 })
          (drop 4 rest)
          (ipv4 (take 4 rest))
  read_ipv4-eq-ok rest long = (
    length-take 4 rest (ground arith),
    refl,
    sym (take-append-drop 4 rest),
    refl,
    ground (arith, length-drop 4 rest),
  )

  read_ipv6-eq-ok :
      (rest : Bytes)
      → ltb (length rest) 18 ≡ false
      → IsAddressOf atyp_ipv6 rest
          (record { host = []; addr = v6 (take 16 rest) []; port = 0 })
          (drop 16 rest)
          (ipv6 (take 16 rest))
  read_ipv6-eq-ok rest long = (
    length-take 16 rest (ground arith),
    refl,
    sym (take-append-drop 16 rest),
    refl,
    ground (arith, length-drop 16 rest),
  )

  read_domain-eq-ok :
      (rest : Bytes) (dst : Destination) (more : Bytes)
      → IsBytes rest
      → read_domain parse_addr rest ≡ ok (dst, more)
      → (t : Target) × IsAddressOf atyp_domain rest dst more t
  unfolding read_domain
  read_domain-eq-ok [] dst more bytes e = cc
  read_domain-eq-ok (l ∷ rest) dst more bytes e = (
    domain (take l rest),
    ground (
      arith,
      length-take l rest,
      length-drop l rest,
      take-append-drop l rest,
      drop-add_one l l rest,
    ),
  )

  read_address-eq-ok :
      (kind : ℕ) (rest : Bytes) (dst : Destination) (more : Bytes)
      → IsBytes rest
      → read_address parse_addr kind rest ≡ ok (dst, more)
      → (t : Target) × IsAddressOf kind rest dst more t
  unfolding read_address
  read_address-eq-ok kind rest dst more bytes e = elim (Bool-cases (kind == atyp_ipv4)) [
    | inl is ↦ elim (Bool-cases (ltb (length rest) 6)) [
      | inl short ↦ absurd (ground arith)
      | inr long ↦ (ipv4 (take 4 rest), ground (arith, read_ipv4-eq-ok rest long))
    ]
    | inr not4 ↦ elim (Bool-cases (kind == atyp_ipv6)) [
      | inl is ↦ elim (Bool-cases (ltb (length rest) 18)) [
        | inl short ↦ absurd (ground arith)
        | inr long ↦ (ipv6 (take 16 rest), ground (arith, read_ipv6-eq-ok rest long))
      ]
      | inr not6 ↦ elim (Bool-cases (kind == atyp_domain)) [
        | inl is ↦
            let (t, a) = read_domain-eq-ok rest dst more bytes (ground arith) in (t, ground arith)
        | inr other ↦ absurd (ground arith)
      ]
    ]
  ]

  read_port-eq-ok :
      (dst' : Destination) (more : Bytes) (dst : Destination) (payload : Bytes)
      → IsBytes more
      → 2 ≤ length more
      → read_port parse_addr (dst', more) ≡ ok (dst, payload)
      → (0 < dst.port)
        × (dst.port < 65536)
        × (more ≡ put_u16 dst.port ++ payload)
        × (dst ≡ record dst' { port = dst.port })
  unfolding read_port
  read_port-eq-ok dst' [] dst payload bytes long e = absurd (omega arith)
  read_port-eq-ok dst' (x ∷ []) dst payload bytes long e = absurd (omega arith)
  read_port-eq-ok dst' (x ∷ y ∷ more) dst payload bytes long e = ground arith

  abbrev pub IsDatagramOf : Bytes → Destination → Bytes → Target → Type 0
  IsDatagramOf b dst payload t =
      IsTarget t
      × (0 < dst.port)
      × (dst.port < 65536)
      × (b ≡ datagram t dst.port payload)
      × (dst ≡ meaning parse_addr t dst.port)

  -- A header is accepted only if the datagram is the RFC's for some target and a port that is not 0.
  pub parse-eq-datagram :
      (b : Bytes) (dst : Destination) (payload : Bytes)
      → IsBytes b
      → parse_udp_header parse_addr b ≡ ok (dst, payload)
      → (t : Target) × IsDatagramOf b dst payload t
  unfolding parse_udp_header
  parse-eq-datagram [] dst payload bytes e = cc
  parse-eq-datagram (x ∷ []) dst payload bytes e = cc
  parse-eq-datagram (x ∷ y ∷ []) dst payload bytes e = cc
  parse-eq-datagram (x ∷ y ∷ z ∷ []) dst payload bytes e = cc
  parse-eq-datagram (x ∷ y ∷ z ∷ kind ∷ rest) dst payload bytes e =
      let tail : IsBytes rest = bytes.1.1.1.1 in
      elim (Result-cases (read_address parse_addr kind rest)) [
        | inr (why, failed) ↦ absurd (ground arith)
        | inl ((dst', more), read) ↦
            let (t, a) = read_address-eq-ok kind rest dst' more tail read in
            let more_bytes = All-append_right (λ v. v < 256) (field t) more (rw a.2 at tail) in
            let port = read_port-eq-ok dst' more dst payload more_bytes a.4 (ground arith) in
            (t, ground (arith, meaning-port t dst.port))
      ]

  read_port-pos :
      (read : Destination × Bytes) (dst : Destination) (payload : Bytes)
      → read_port parse_addr read ≡ ok (dst, payload)
      → 0 < dst.port
  unfolding read_port
  read_port-pos (dst', rest) dst payload e = ground arith

  pub parse-port_pos :
      (b : Bytes) (dst : Destination) (payload : Bytes)
      → parse_udp_header parse_addr b ≡ ok (dst, payload)
      → 0 < dst.port
  unfolding parse_udp_header
  parse-port_pos b dst payload e =
      elim (Result-cases (read_address parse_addr (get_or b 3 0) (drop 4 b))) [
        | inr (why, failed) ↦ absurd (ground arith)
        | inl (read, done) ↦ ground (arith, read_port-pos read dst payload)
      ]
