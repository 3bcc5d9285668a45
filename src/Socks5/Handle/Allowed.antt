-- ===== src/Socks5/Handle/Allowed.antt =====
-- What a whole session may use of the tunnel, whatever its client sends.
use awgsocks.Base.{
  ◌+◌, false, Option-cases, if-case, ℕ, ◌<◌, ◌≡◌, ◌≢◌, true, arith, List, [], ◌∷◌, Option, none,
  Bytes, All, err, Result-cases, Bool-cases, ◌==◌, inl, inr,
}
use awgsocks.Netip.{Addr, is_unspecified}
use awgsocks.Socks5.Target.{Destination}
use awgsocks.Socks5.Session.{Conn, write_reply, SessionError, negotiate, read_request}
use awgsocks.Socks5.Stats.{Stats}
use awgsocks.Socks5.Failure.{rep_success}
use awgsocks.Socks5.Relay.{Relay, new_udp_relay, warm_up}
use awgsocks.Socks5.Relay.Uses.{RelayMay, IsModest, warm_up-IsModest, Step-IsModest}
use awgsocks.Socks5.Handle.Association.{run_event-Step}
use awgsocks.Socks5.Connect.{Egress, Use, through, looked_up, dialed, listened, sent_to, connect}
use awgsocks.Socks5.Connect.Allowed.{IsAllowed, IsRoutable, connect-IsAllowed}
use awgsocks.Socks5.Handle.{
  Surroundings, associate, serve_connect, dispatch, handle, RelayEvent, run_event, run_events,
  associated, expected,
}

-- A use of the dialer that a session may make.
abbrev pub MayUse : Surroundings → Use → Type 0
MayUse w (d, looked_up h) = (h ≢ []) × (d.has_dns ≡ true)
MayUse w (d, dialed t) = IsRoutable t.addr × (0 < t.port)
MayUse w (d, listened v) = w.udp_enabled ≡ true
MayUse w (d, sent_to t) = (w.udp_enabled ≡ true) × (is_unspecified t.addr ≡ false) × (0 < t.port)

module _ (w : Surroundings) where
  allowed-MayUse :
      (dest : Destination) (es : List Egress)
      → 0 < dest.port
      → All (IsAllowed w.dialer dest) es
      → All (MayUse w) (through w.dialer es)
  allowed-MayUse dest [] pos h = tt
  allowed-MayUse dest (looked_up n ∷ es) pos h = (ground arith, allowed-MayUse dest es pos h.1)
  allowed-MayUse dest (dialed t ∷ es) pos h = (ground arith, allowed-MayUse dest es pos h.1)
  allowed-MayUse dest (listened v ∷ es) pos h = absurd h.0
  allowed-MayUse dest (sent_to t ∷ es) pos h = absurd h.0

  relay-MayUse : (us : List Use) → w.udp_enabled ≡ true → All RelayMay us → All (MayUse w) us
  relay-MayUse [] on h = tt
  relay-MayUse ((d, looked_up n) ∷ us) on h = (h.0, relay-MayUse us on h.1)
  relay-MayUse ((d, dialed t) ∷ us) on h = absurd h.0
  relay-MayUse ((d, listened v) ∷ us) on h = (on, relay-MayUse us on h.1)
  relay-MayUse ((d, sent_to t) ∷ us) on h = ((on, h.0.0, h.0.1), relay-MayUse us on h.1)

  module _ (lower_other : ℕ → ℕ) (parse_addr : Bytes → Option Addr) where
    serve_connect-egress :
        (s : Stats) (c : Conn) (dest : Destination)
        → (serve_connect lower_other parse_addr w s c dest).egress
          ≡ through w.dialer (connect lower_other w.dialer s dest).egress
    unfolding serve_connect
    serve_connect-egress s c dest = ground arith

    run_events-IsModest :
        (es : List RelayEvent) (r : Relay)
        → IsModest r
        → IsModest (run_events lower_other parse_addr es r)
    unfolding run_events
    run_events-IsModest [] r h = h
    run_events-IsModest (e ∷ es) r h =
        run_events-IsModest es (run_event lower_other parse_addr e r)
          (Step-IsModest parse_addr (run_event-Step lower_other parse_addr e r) h)

    associated-MayUse :
        (c : Conn) (r : Relay)
        → w.udp_enabled ≡ true
        → IsModest r
        → All (MayUse w) (associated lower_other parse_addr w c r).egress
    unfolding associated
    associated-MayUse c r on h =
        let opened = record r { stats = record r.stats { udp_assoc = r.stats.udp_assoc + 1 } } in
        let last = run_events lower_other parse_addr w.traffic opened in
        let ran = relay-MayUse last.uses on (run_events-IsModest w.traffic opened h) in
        if-case (λ (l : Relay). All (MayUse w) l.uses) (write_reply c rep_success w.bound).1 last
          opened (λ e. ran) (λ e. relay-MayUse r.uses on h)

    new_udp_relay-IsModest :
        (s : Stats) (dest : Destination) → IsModest (new_udp_relay w.now (expected dest) s)
    unfolding new_udp_relay
    new_udp_relay-IsModest s dest = tt

    associate-MayUse :
        (s : Stats) (c : Conn) (dest : Destination)
        → All (MayUse w) (associate lower_other parse_addr w s c dest).egress
    unfolding associate
    associate-MayUse s c dest =
        let r = new_udp_relay w.now (expected dest) s in
        let q = (warm_up w.dialer r).1 in
        let modest : IsModest q = warm_up-IsModest w.dialer r (new_udp_relay-IsModest s dest) in
        elim (Bool-cases w.udp_enabled) [
          | inr off ↦ ground arith
          | inl on ↦ elim (Option-cases w.listen_fails) [
            | inr (why, failed) ↦ ground arith
            | inl bound ↦ elim (Option-cases (warm_up w.dialer r).0) [
              | inr (why, failed) ↦ ground (arith, relay-MayUse q.uses on modest)
              | inl up ↦ let ran = associated-MayUse c q on modest in ground (arith, ran)
            ]
          ]
        ]

    serve_connect-MayUse :
        (s : Stats) (c : Conn) (dest : Destination)
        → 0 < dest.port
        → All (MayUse w) (serve_connect lower_other parse_addr w s c dest).egress
    serve_connect-MayUse s c dest pos = rw (serve_connect-egress s c dest) (
        allowed-MayUse dest (connect lower_other w.dialer s dest).egress pos
          (connect-IsAllowed w.dialer dest lower_other s))

    dispatch-MayUse :
        (s : Stats) (c : Conn) (cmd : ℕ) (dest : Destination)
        → All (MayUse w) (dispatch lower_other parse_addr w s c cmd dest).egress
    unfolding dispatch
    dispatch-MayUse s c cmd dest =
        let served = serve_connect-MayUse s c dest in
        elim (Bool-cases (dest.port == 0)) [
          | inl zero_port ↦ ground (arith, associate-MayUse s c dest)
          | inr some_port ↦ ground (arith, served (ground arith), associate-MayUse s c dest)
        ]

    -- Whatever a client sends, in its request and in the datagrams of an association, its session uses the
    -- tunnel only to look a name up, if DNS is configured for the dialer at that time, to dial an unmapped
    -- address that is neither 0.0.0.0 nor :: at a port that is not 0, and, if UDP ASSOCIATE is enabled, to
    -- open a UDP socket and to send from it to an address that is neither 0.0.0.0 nor :: at a port that is
    -- not 0.
    pub handle-MayUse :
        (s : Stats) (c : Conn) → All (MayUse w) (handle lower_other parse_addr w s c).egress
    unfolding handle
    handle-MayUse s c = elim (Result-cases (negotiate c).1) [
      | inr (why, failed) ↦ ground arith
      | inl (done, greeted) ↦
          let c' = (negotiate c).0 in
          elim (Result-cases (read_request parse_addr c').1) [
            | inr (why, failed) ↦ ground arith
            | inl ((cmd, dest), asked) ↦
                ground (arith, dispatch-MayUse s (read_request parse_addr c').0 cmd dest)
          ]
    ]

    -- A client that does not get through the negotiation reaches nothing and changes no counter.
    pub handle-refused :
        (s : Stats) (c : Conn) {why : SessionError}
        → (negotiate c).1 ≡ err why
        → ((handle lower_other parse_addr w s c).egress ≡ [])
          × ((handle lower_other parse_addr w s c).stats ≡ s)
          × ((handle lower_other parse_addr w s c).relay ≡ none)
    unfolding handle
    handle-refused s c failed = ground arith
