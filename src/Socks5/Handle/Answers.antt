-- ===== src/Socks5/Handle/Answers.antt =====
-- The answer of a whole CONNECT session, from the client's bytes to the reply.
use awgsocks.Base.{
  ℕ, ◌+◌, ◌<◌, ◌≡◌, true, false, refl, arith, [], ◌∷◌, ◌++◌, Option, Bytes, Result, ok, err,
  Result-cases, inl, inr, length,
}
use awgsocks.Netip.{Addr, AddrPort, no_addr_port}
use awgsocks.Socks5.Target.{
  Destination, Target, IsTarget, ipv4, ipv6, domain, meaning, socks_version, method_no_auth,
  cmd_connect,
}
use awgsocks.Socks5.Failure.{rep_success}
use awgsocks.Socks5.Session.{Conn, write_reply, reply_bytes}
use awgsocks.Socks5.Session.Greeting.{IsGreeting, negotiate_iff, offers_no_auth}
use awgsocks.Socks5.Session.Request.{request, read-request}
use awgsocks.Socks5.Stats.{Stats}
use awgsocks.Socks5.Connect.{Dialer, Attempt, through, connect}
use awgsocks.Socks5.Handle.{Ending, Surroundings, serve_connect, dispatch, handle}

abbrev pub code_of : Result ℕ AddrPort → ℕ
code_of (ok t) = rep_success
code_of (err code) = code

abbrev pub bound_of : Result ℕ AddrPort → AddrPort
bound_of (ok t) = t
bound_of (err code) = no_addr_port

abbrev pub failures : Result ℕ AddrPort → ℕ
failures (ok t) = 0
failures (err code) = 1

-- A CONNECT session: the greeting, the request and what follows.
pub record IsConnect (c : Conn) (t : Target) (port : ℕ) (rest : Bytes) : Type 0 where
  pub methods : Bytes
  pub rsv : ℕ
  pub sent :
      c.input
      ≡ socks_version ∷ length methods ∷ (methods ++ (request cmd_connect rsv t port ++ rest))
  pub some_method : 0 < length methods
  pub no_auth : offers_no_auth methods ≡ true
  pub is_target : IsTarget t
  pub pos : 0 < port
  pub small : port < 65536
  pub writable : c.broken ≡ false
  pub fresh : c.expired ≡ false

-- The session sends the method and a reply for the attempt `a`, reads no further than the request,
-- and does what the attempt does.
abbrev pub IsAnswered : Dialer → Conn → Bytes → Attempt → Ending → Type 0
IsAnswered d c rest a r =
    (r.conn.output
      ≡ (c.output ++ socks_version ∷ method_no_auth ∷ [])
        ++ reply_bytes (code_of a.outcome) (bound_of a.outcome))
    × (r.conn.input ≡ rest)
    × (r.egress ≡ through d a.egress)
    × (r.stats.failed ≡ a.stats.failed + failures a.outcome)

port-meaning :
    (parse_addr : Bytes → Option Addr) (t : Target) (port : ℕ)
    → (meaning parse_addr t port).port ≡ port
port-meaning parse_addr (ipv4 b) port = refl
port-meaning parse_addr (ipv6 b) port = refl
port-meaning parse_addr (domain n) port = ground arith

module _ (lower_other : ℕ → ℕ) (parse_addr : Bytes → Option Addr) (w : Surroundings) where
  serve_connect-answer :
      (s : Stats) (c : Conn) (dest : Destination)
      → c.broken ≡ false
      → let a = connect lower_other w.dialer s dest in
        let r = serve_connect lower_other parse_addr w s c dest in
        (r.conn.output ≡ c.output ++ reply_bytes (code_of a.outcome) (bound_of a.outcome))
        × (r.conn.input ≡ c.input)
        × (r.egress ≡ through w.dialer a.egress)
        × (r.stats.failed ≡ a.stats.failed + failures a.outcome)
  unfolding serve_connect write_reply
  serve_connect-answer s c dest writable =
      elim (Result-cases (connect lower_other w.dialer s dest).outcome) [
        | inl (t, connected) ↦ ground arith
        | inr (code, failed) ↦ ground arith
      ]

  dispatch-connect :
      (s : Stats) (c : Conn) (dest : Destination)
      → 0 < dest.port
      → dispatch lower_other parse_addr w s c cmd_connect dest
        ≡ serve_connect lower_other parse_addr w s c dest
  unfolding dispatch
  dispatch-connect s c dest pos = ground arith

  -- A client that greets, offers "no authentication" and asks for a target at a port that is not 0
  -- is answered with exactly two messages: the method, and a reply that is "success" with the target
  -- that was reached, or the failure's code with no address; nothing behind its request is read, the
  -- dialer is used as `connect` says, and a failure is counted once.
  pub handle-connect :
      (s : Stats) (c : Conn) (t : Target) (port : ℕ) (rest : Bytes)
      → IsConnect c t port rest
      → IsAnswered w.dialer c rest
          (connect lower_other w.dialer s (meaning parse_addr t port))
          (handle lower_other parse_addr w s c)
  unfolding handle
  handle-connect s c t port rest h =
      let dest = meaning parse_addr t port in
      let body = request cmd_connect h.rsv t port ++ rest in
      let c' = record c {
        input = body;
        output = c.output ++ socks_version ∷ method_no_auth ∷ [];
      } in
      let greeting : IsGreeting c c' = record {
        methods = h.methods;
        rest = body;
        sent = h.sent;
        some_method = h.some_method;
        no_auth = h.no_auth;
        writable = h.writable;
        after = refl;
      } in
      let c'' = record c' { input = rest } in
      ground (
        arith,
        (negotiate_iff c c').1 greeting,
        read-request parse_addr c' cmd_connect h.rsv t port rest refl h.is_target h.small,
        dispatch-connect s c'' dest (rw (port-meaning parse_addr t port) h.pos),
        serve_connect-answer s c'' dest h.writable,
      )
