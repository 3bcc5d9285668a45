-- ===== src/Socks5/Session/Request.antt =====
-- The request reader against the request of RFC 1928.
use awgsocks.Base.{
  ℕ, ◌<◌, [], ◌∷◌, ◌++◌, ◌≡◌, ◌↔◌, refl, Option, arith, Bytes, IsBytes, All-append_right, length,
  get_or, ◌==◌, ok, Bool-cases, inl, inr, Option-cases, Result-cases, append_assoc,
}
use awgsocks.Socks5.Datagram.Reading.{get-put, meaning-port}
use awgsocks.Netip.{Addr, get_u16, put_u16}
use awgsocks.Socks5.Target.{
  Destination, Target, ipv4, ipv6, domain, IsTarget, atyp, field, meaning, socks_version, atyp_ipv4,
  atyp_ipv6, atyp_domain,
}
use awgsocks.Socks5.Session.{Conn, read_full, read_name, read_dest, read_dest_port, read_request}
use awgsocks.Socks5.Session.Greeting.{read_full-append, read_full-eq-some}

-- A request for a target: version, command, a reserved byte, the target and the port.
abbrev pub request : ℕ → ℕ → Target → ℕ → Bytes
request cmd rsv t port = socks_version ∷ cmd ∷ rsv ∷ atyp t ∷ (field t ++ put_u16 port)

single_of : (b : Bytes) → length b ≡ 1 → b ≡ get_or b 0 0 ∷ []
single_of [] h = absurd (omega arith)
single_of (x ∷ []) h = refl
single_of (x ∷ y ∷ b) h = absurd (omega arith)

first_byte :
    (c : Conn) (x : ℕ) (rest : Bytes) → IsBytes c.input → c.input ≡ x ∷ [] ++ rest → x < 256
first_byte c x rest bytes e = let b : IsBytes (x ∷ rest) = rw e at bytes in b.0

quad_of :
    (b : Bytes) → length b ≡ 4 → b ≡ get_or b 0 0 ∷ get_or b 1 0 ∷ get_or b 2 0 ∷ get_or b 3 0 ∷ []
quad_of [] h = absurd (omega arith)
quad_of (x ∷ []) h = absurd (omega arith)
quad_of (x ∷ y ∷ []) h = absurd (omega arith)
quad_of (x ∷ y ∷ z ∷ []) h = absurd (omega arith)
quad_of (x ∷ y ∷ z ∷ v ∷ []) h = refl
quad_of (x ∷ y ∷ z ∷ v ∷ w ∷ b) h = absurd (omega arith)

u16_of :
    (b rest : Bytes)
    → length b ≡ 2
    → IsBytes (b ++ rest)
    → (b ≡ put_u16 (get_u16 b)) × (get_u16 b < 65536)
u16_of [] rest h bytes = absurd (omega arith)
u16_of (x ∷ []) rest h bytes = absurd (omega arith)
u16_of (x ∷ y ∷ []) rest h bytes = ground arith
u16_of (x ∷ y ∷ z ∷ b) rest h bytes = absurd (omega arith)

module _ (parse_addr : Bytes → Option Addr) where
  read_dest-field :
      (t : Target) (rest : Bytes) (c : Conn)
      → IsTarget t
      → c.input ≡ field t ++ rest
      → read_dest parse_addr (atyp t) c ≡ (record c { input = rest }, ok (meaning parse_addr t 0))
  unfolding read_dest
  read_dest-field (ipv4 b) rest c h e = ground (arith, read_full-append b rest c e)
  read_dest-field (ipv6 b) rest c h e = ground (arith, read_full-append b rest c e)
  read_dest-field (domain n) rest c h e =
      unfold read_name in
      ground (
        arith,
        read_full-append (length n ∷ []) (n ++ rest) c e,
        read_full-append n rest (record c { input = n ++ rest }) refl,
      )

  -- Every request is read as what it means, and nothing behind it is taken.
  pub read-request :
      (c : Conn) (cmd rsv : ℕ) (t : Target) (port : ℕ) (rest : Bytes)
      → c.input ≡ request cmd rsv t port ++ rest
      → IsTarget t
      → port < 65536
      → read_request parse_addr c ≡ (record c { input = rest }, ok (cmd, meaning parse_addr t port))
  unfolding read_request read_dest_port
  read-request c cmd rsv t port rest e h small =
      let head = socks_version ∷ cmd ∷ rsv ∷ atyp t ∷ [] in
      let tail = put_u16 port ++ rest in
      let body = record c { input = field t ++ tail } in
      ground (
        arith,
        append_assoc (field t) (put_u16 port) rest,
        read_full-append head (field t ++ tail) c,
        read_dest-field t tail body h refl,
        read_full-append (put_u16 port) rest (record c { input = tail }) refl,
        meaning-port parse_addr t port,
        get-put port small,
      )

  -- What an accepted address is.
  abbrev ReadsTarget : ℕ → Conn → Conn → Destination → Target → Type 0
  ReadsTarget kind c c' dest t =
      IsTarget t
      × (kind ≡ atyp t)
      × (c.input ≡ field t ++ c'.input)
      × (c' ≡ record c { input = c'.input })
      × (dest ≡ meaning parse_addr t 0)

  read_name-eq-ok :
      (c c' : Conn) (dest : Destination)
      → IsBytes c.input
      → read_name parse_addr c ≡ (c', ok dest)
      → (t : Target) × ReadsTarget atyp_domain c c' dest t
  unfolding read_name
  read_name-eq-ok c c' dest bytes e = elim (Option-cases (read_full 1 c)) [
    | inl short ↦ absurd (ground arith)
    | inr ((len, c1), read) ↦ elim (Option-cases (read_full (get_or len 0 0) c1)) [
      | inl short ↦ absurd (ground arith)
      | inr ((name, c2), read_rest) ↦
          let first = read_full-eq-some 1 c len c1 read in
          let second = read_full-eq-some (get_or len 0 0) c1 name c2 read_rest in
          let byte = single_of len first.0 in
          let small = first_byte c (get_or len 0 0) c1.input bytes (rw byte at first.1) in
          (domain name, ground arith)
    ]
  ]

  read_dest-eq-ok :
      (kind : ℕ) (c c' : Conn) (dest : Destination)
      → IsBytes c.input
      → read_dest parse_addr kind c ≡ (c', ok dest)
      → (t : Target) × ReadsTarget kind c c' dest t
  unfolding read_dest
  read_dest-eq-ok kind c c' dest bytes e = elim (Bool-cases (kind == atyp_ipv4)) [
    | inl is ↦ elim (Option-cases (read_full 4 c)) [
      | inl short ↦ absurd (ground arith)
      | inr ((b, c1), read) ↦ (ipv4 b, ground (arith, read_full-eq-some 4 c b c1 read))
    ]
    | inr not4 ↦ elim (Bool-cases (kind == atyp_ipv6)) [
      | inl is ↦ elim (Option-cases (read_full 16 c)) [
        | inl short ↦ absurd (ground arith)
        | inr ((b, c1), read) ↦ (ipv6 b, ground (arith, read_full-eq-some 16 c b c1 read))
      ]
      | inr not6 ↦ elim (Bool-cases (kind == atyp_domain)) [
        | inl is ↦ let (t, a) = read_name-eq-ok c c' dest bytes (ground arith) in (t, ground arith)
        | inr other ↦ absurd (ground arith)
      ]
    ]
  ]

  -- A request, what it asks for, and the connection behind it.
  pub record IsRequest (c c' : Conn) (cmd : ℕ) (dest : Destination) : Type 0 where
    pub rsv : ℕ
    pub target : Target
    pub port : ℕ
    pub sent : c.input ≡ request cmd rsv target port ++ c'.input
    pub is_target : IsTarget target
    pub small : port < 65536
    pub means : dest ≡ meaning parse_addr target port
    pub after : c' ≡ record c { input = c'.input }

  abbrev ReadsPort : ℕ → Conn → Conn → Destination → Target → ℕ → Type 0
  ReadsPort kind c c' dest t port =
      IsTarget t
      × (kind ≡ atyp t)
      × (port < 65536)
      × (c.input ≡ field t ++ (put_u16 port ++ c'.input))
      × (dest ≡ meaning parse_addr t port)
      × (c' ≡ record c { input = c'.input })

  read_dest_port-eq-ok :
      (kind cmd' : ℕ) (c1 c' : Conn) (cmd : ℕ) (dest : Destination)
      → IsBytes c1.input
      → read_dest_port parse_addr cmd' (read_dest parse_addr kind c1) ≡ (c', ok (cmd, dest))
      → (cmd ≡ cmd') × ((t : Target) × (port : ℕ) × ReadsPort kind c1 c' dest t port)
  unfolding read_dest_port
  read_dest_port-eq-ok kind cmd' c1 c' cmd dest bytes e =
      elim (Result-cases (read_dest parse_addr kind c1).1) [
        | inr (why, failed) ↦ absurd (ground arith)
        | inl (dest', read) ↦
            let c2 = (read_dest parse_addr kind c1).0 in
            let (t, a) = read_dest-eq-ok kind c1 c2 dest' bytes (ground arith) in
            elim (Option-cases (read_full 2 c2)) [
              | inl short ↦ absurd (ground arith)
              | inr ((b, c3), read_port) ↦
                  let second = read_full-eq-some 2 c2 b c3 read_port in
                  let tail = All-append_right (λ v. v < 256) (field t) c2.input (rw a.2 at bytes) in
                  let port = u16_of b c3.input second.0 (rw second.1 at tail) in
                  (
                    ground arith,
                    (t, get_u16 b, ground (arith, meaning-port parse_addr t (get_u16 b))),
                  )
            ]
      ]

  read_request-IsRequest :
      (c c' : Conn) (cmd : ℕ) (dest : Destination)
      → IsBytes c.input
      → read_request parse_addr c ≡ (c', ok (cmd, dest))
      → IsRequest c c' cmd dest
  unfolding read_request
  read_request-IsRequest c c' cmd dest bytes e = elim (Option-cases (read_full 4 c)) [
    | inl short ↦ absurd (ground arith)
    | inr ((header, c1), read) ↦
        let first = read_full-eq-some 4 c header c1 read in
        let four = quad_of header first.0 in
        let tail = All-append_right (λ v. v < 256) header c1.input (rw first.1 at bytes) in
        let (same, (t, port, a)) =
          read_dest_port-eq-ok (get_or header 3 0) (get_or header 1 0) c1 c' cmd dest tail
            (ground arith) in
        record {
          rsv = get_or header 2 0;
          target = t;
          port = port;
          sent = ground (arith, append_assoc (field t) (put_u16 port) c'.input);
          is_target = a.0;
          small = a.2;
          means = a.4;
          after = ground arith;
        }
  ]

  -- On a stream of bytes, a request is read exactly if the stream begins with one of the layout of
  -- RFC 1928, of version 5, with any command and any RSV byte; what is read is its command and what its target and port mean, and what the client
  -- sent behind it is still to be read.
  pub read_request_iff :
      (c c' : Conn) (cmd : ℕ) (dest : Destination)
      → IsBytes c.input
      → (read_request parse_addr c ≡ (c', ok (cmd, dest))) ↔ IsRequest c c' cmd dest
  read_request_iff c c' cmd dest bytes = (
    read_request-IsRequest c c' cmd dest bytes,
    λ r. ground (
      arith,
      read-request c cmd r.rsv r.target r.port c'.input r.sent r.is_target r.small,
      r.means,
      r.after,
    ),
  )
