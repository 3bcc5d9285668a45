-- ===== src/Socks5/Connect/Outcome.antt =====
-- Which target a request gets, and what it is told otherwise.
use awgsocks.Base.{
  ℕ, suc, ◌+◌, true, false, ◌||◌, List, [], ◌∷◌, ◌≡◌, ◌≢◌, ◌↔◌, ◌⊎◌, Option, none, some, arith,
  Bytes, Result, ok, err, equal, equal_iff, Bool-cases, List-cases, inl, inr, if◌then◌else◌,
  Option-cases,
}
use awgsocks.Netip.{Addr, AddrPort, unmap, is_unspecified}
use awgsocks.Socks5.Target.{Destination}
use awgsocks.Socks5.Failure.{GoError, rep_success, rep_network_unreachable, rep_host_unreachable}
use awgsocks.Socks5.Failure.Codes.{reply_for_error-eq-success, reply_for_error-tunnel}
use awgsocks.Socks5.Stats.{Stats}
use awgsocks.Socks5.Connect.{
  Dialer, Egress, looked_up, routable, dial_all, finish, connect_found, connect, no_destination,
}

found : Result GoError (List Addr) → List Addr
found (ok addrs) = routable addrs
found (err e) = []

module _ (d : Dialer) where
  -- The addresses that a request may be connected to, in order of preference.
  pub candidates : Destination → List Addr
  unfolding found
  candidates dest =
      if equal dest.host []
      then (if is_unspecified (unmap dest.addr) then [] else dest.addr ∷ [])
      else if d.has_dns
      then found (d.lookup_host dest.host)
      else []

  -- The target of the first candidate that answers; those before it have failed.
  abbrev pub FirstReachable : ℕ → ℕ → List Addr → AddrPort → Type 0
  FirstReachable n port [] t = ⊥
  FirstReachable n port (a ∷ rest) t =
      ((d.dial_tcp n (record { addr = unmap a; port = port }) ≡ none)
        × (t ≡ record { addr = unmap a; port = port }))
      ⊎ ((e : GoError) × (d.dial_tcp n (record { addr = unmap a; port = port }) ≡ some e)
          × FirstReachable (suc n) port rest t)

  dial_all_iff :
      (n port : ℕ) (last : Option GoError) (addrs : List Addr) (t : AddrPort)
      → ((dial_all d n port last addrs).1 ≡ ok t) ↔ FirstReachable n port addrs t
  unfolding dial_all
  dial_all_iff n port last [] t = ((λ e. cc), λ f. absurd f)
  dial_all_iff n port last (a ∷ rest) t =
      let target : AddrPort = record { addr = unmap a; port = port } in
      let ih = dial_all_iff (suc n) port (d.dial_tcp n target) rest t in
      elim (Option-cases (d.dial_tcp n target)) [
        | inl answered ↦ (
          (λ e. inl (answered, ground arith)),
          λ f. elim f [ inl hit ↦ ground arith | inr miss ↦ absurd (ground arith) ],
        )
        | inr (why, failed) ↦ (
          (λ e. inr (why, failed, ih.0 (ground arith))),
          λ f. elim f [
            | inl hit ↦ absurd (ground arith)
            | inr (why', failed', later) ↦ let rest_ok = ih.1 later in ground arith
          ],
        )
      ]

  module _ (lower_other : ℕ → ℕ) where
    finish-outcome_iff :
        (s : Stats) (before : List Egress) (r : List Egress × Result (Option GoError) AddrPort)
        (t : AddrPort)
        → ((finish lower_other d s before r).outcome ≡ ok t) ↔ (r.1 ≡ ok t)
    unfolding finish
    finish-outcome_iff s before (used, ok t') t = ground arith
    finish-outcome_iff s before (used, err e) t = ground arith

    connect_found_iff :
        (s : Stats) (host : Bytes) (port : ℕ) (r : Result GoError (List Addr)) (t : AddrPort)
        → ((connect_found lower_other d s host port r).outcome ≡ ok t)
          ↔ FirstReachable 0 port (found r) t
    unfolding connect_found found
    connect_found_iff s host port (err e) t = ((λ e. cc), λ f. absurd f)
    connect_found_iff s host port (ok addrs) t = elim (List-cases (routable addrs)) [
      | inl none_left ↦ rw (none_left, connect_found, found) ((λ e. cc), λ f. absurd f)
      | inr (a, rest, some_left) ↦
          let used = dial_all d 0 port none (a ∷ rest) in
          let first = finish-outcome_iff s (looked_up host ∷ []) used t in
          let second = dial_all_iff 0 port none (a ∷ rest) t in
          rw (some_left, connect_found, found)
            ((λ e. second.0 (first.0 e)), λ f. first.1 (second.1 f))
    ]

    -- A request is connected exactly to the first of its candidates that can be reached, all before it
    -- having failed.
    pub connect_iff :
        (s : Stats) (dest : Destination) (t : AddrPort)
        → ((connect lower_other d s dest).outcome ≡ ok t)
          ↔ FirstReachable 0 dest.port (candidates dest) t
    unfolding connect candidates
    connect_iff s dest t = elim (Bool-cases (equal dest.host [])) [
      | inl address ↦ elim (Bool-cases (is_unspecified (unmap dest.addr))) [
        | inl unspecified ↦ rw (address, unspecified) ((λ e. cc), λ f. absurd f)
        | inr specified ↦
            let used = dial_all d 0 dest.port none (dest.addr ∷ []) in
            let first = finish-outcome_iff s [] used t in
            let second = dial_all_iff 0 dest.port none (dest.addr ∷ []) t in
            rw (address, specified) ((λ e. second.0 (first.0 e)), λ f. first.1 (second.1 f))
      ]
      | inr named ↦ elim (Bool-cases d.has_dns) [
        | inl dns ↦
            let counted = record s { hostname = s.hostname + 1 } in
            rw named
              (simp dns (connect_found_iff counted dest.host dest.port (d.lookup_host dest.host) t))
        | inr no_dns ↦ rw named (simp no_dns ((λ e. cc), λ f. absurd f))
      ]
    ]

    finish-ne-success :
        (s : Stats) (before : List Egress) (r : List Egress × Result (Option GoError) AddrPort)
        → (finish lower_other d s before r).outcome ≢ err rep_success
    unfolding finish
    finish-ne-success s before (used, ok t) e = cc
    finish-ne-success s before (used, err none) e =
        ground
          (arith, reply_for_error-eq-success lower_other (some no_destination) rep_host_unreachable)
    finish-ne-success s before (used, err (some why)) e =
        ground (arith, reply_for_error-eq-success lower_other (some why) rep_host_unreachable)

    connect_found-ne-success :
        (s : Stats) (host : Bytes) (port : ℕ) (r : Result GoError (List Addr))
        → (connect_found lower_other d s host port r).outcome ≢ err rep_success
    unfolding connect_found
    connect_found-ne-success s host port (err e) h =
        ground (arith, reply_for_error-eq-success lower_other (some e) rep_host_unreachable)
    connect_found-ne-success s host port (ok addrs) h = elim (List-cases (routable addrs)) [
      | inl none_left ↦ ground arith
      | inr (a, rest, some_left) ↦
          let used = dial_all d 0 port none (a ∷ rest) in
          ground (arith, finish-ne-success s (looked_up host ∷ []) used)
    ]

    -- A request that is not connected is never told "success".
    pub connect-ne-success :
        (s : Stats) (dest : Destination) → (connect lower_other d s dest).outcome ≢ err rep_success
    unfolding connect
    connect-ne-success s dest h =
        let counted = record s { hostname = s.hostname + 1 } in
        let used = dial_all d 0 dest.port none (dest.addr ∷ []) in
        ground (
          arith,
          connect_found-ne-success counted dest.host dest.port (d.lookup_host dest.host),
          finish-ne-success s [] used,
        )

    -- Every answer of the tunnel says that it is down, or has no handshake.
    pub record IsDown : Type 0 where
      pub dials :
          (n : ℕ) (t : AddrPort)
          → (e : GoError) × (d.dial_tcp n t ≡ some e) × ((e.tunnel_down || e.not_ready) ≡ true)
      pub lookups :
          (host : Bytes)
          → (e : GoError) × (d.lookup_host host ≡ err e) × ((e.tunnel_down || e.not_ready) ≡ true)

    dial_one-IsDown :
        (s : Stats) (a : Addr) (port : ℕ)
        → IsDown
        → (finish lower_other d s [] (dial_all d 0 port none (a ∷ []))).outcome
          ≡ err rep_network_unreachable
    unfolding finish dial_all
    dial_one-IsDown s a port down =
        let (e, failed, is_down) = down.dials 0 (record { addr = unmap a; port = port }) in
        ground (arith, reply_for_error-tunnel lower_other e rep_host_unreachable)

    -- While the tunnel is down, a request for a name, with DNS configured, or for an address that is
    -- not 0.0.0.0 or :: is told "network unreachable", and does not count as unresolved.
    pub connect-IsDown :
        (s : Stats) (dest : Destination)
        → IsDown
        → ((dest.host ≢ []) × (d.has_dns ≡ true))
          ⊎ ((dest.host ≡ []) × (is_unspecified (unmap dest.addr) ≡ false))
        → ((connect lower_other d s dest).outcome ≡ err rep_network_unreachable)
          × ((connect lower_other d s dest).stats.no_name ≡ s.no_name)
    unfolding connect connect_found finish
    connect-IsDown s dest down (inl (named, dns)) =
        let (e, failed, is_down) = down.lookups dest.host in
        ground
          (arith, equal_iff dest.host [], reply_for_error-tunnel lower_other e rep_host_unreachable)
    connect-IsDown s dest down (inr (address, specified)) =
        ground (arith, equal_iff dest.host [], dial_one-IsDown s dest.addr dest.port down)
