-- ===== src/Socks5/Connect/Allowed.antt =====
-- What a request may reach: the trace of the dialer's uses.
use awgsocks.Base.{
  ℕ, suc, ◌+◌, true, false, List, [], ◌∷◌, ◌≡◌, ◌≢◌, refl, Option, none, arith, All, All-append,
  Result, ok, err, equal, equal_iff, Bool-cases, List-cases, inl, inr,
}
use awgsocks.Netip.{Addr, AddrPort, v4, v6, unset, unmap, is_unspecified}
use awgsocks.Socks5.Target.{Destination}
use awgsocks.Socks5.Failure.{GoError}
use awgsocks.Socks5.Stats.{Stats}
use awgsocks.Socks5.Connect.{
  Dialer, Egress, looked_up, dialed, listened, sent_to, routable, dial_all, finish, connect_found,
  connect,
}

-- An address that may be dialled: unmapped, and neither 0.0.0.0 nor ::.
abbrev pub IsRoutable : Addr → Type 0
IsRoutable a = (unmap a ≡ a) × (is_unspecified a ≡ false)

-- A use of the dialer that a request for `host` at `port` may make.
abbrev pub IsAllowed : Dialer → Destination → Egress → Type 0
IsAllowed d dest (looked_up h) = (h ≡ dest.host) × (h ≢ []) × (d.has_dns ≡ true)
IsAllowed d dest (dialed t) = IsRoutable t.addr × (t.port ≡ dest.port)
IsAllowed d dest (listened v) = ⊥
IsAllowed d dest (sent_to t) = ⊥

pub unmap-unmap : (a : Addr) → unmap (unmap a) ≡ unmap a
unfolding unmap
unmap-unmap unset = refl
unmap-unmap (v4 b) = refl
unmap-unmap (v6 b zone) = ground arith

abbrev pub CanDial : Addr → Type 0
CanDial a = is_unspecified (unmap a) ≡ false

pub routable-CanDial : (addrs : List Addr) → All CanDial (routable addrs)
unfolding routable
routable-CanDial [] = tt
routable-CanDial (a ∷ addrs) = ground (arith, routable-CanDial addrs, unmap-unmap a)

module _ (d : Dialer) (dest : Destination) where
  dial_all-IsAllowed :
      (n : ℕ) (last : Option GoError) (addrs : List Addr)
      → All CanDial addrs
      → All (IsAllowed d dest) (dial_all d n dest.port last addrs).0
  unfolding dial_all
  dial_all-IsAllowed n last [] h = tt
  dial_all-IsAllowed n last (a ∷ addrs) h =
      let target : AddrPort = record { addr = unmap a; port = dest.port } in
      ground (arith, unmap-unmap a, dial_all-IsAllowed (suc n) (d.dial_tcp n target) addrs h.1)

  finish-IsAllowed :
      (lower_other : ℕ → ℕ) (s : Stats) (before : List Egress)
      (r : List Egress × Result (Option GoError) AddrPort)
      → All (IsAllowed d dest) before
      → All (IsAllowed d dest) r.0
      → All (IsAllowed d dest) (finish lower_other d s before r).egress
  unfolding finish
  finish-IsAllowed lower_other s before (used, ok t) h k =
      All-append (IsAllowed d dest) before used h k
  finish-IsAllowed lower_other s before (used, err e) h k =
      All-append (IsAllowed d dest) before used h k

  connect_found-IsAllowed :
      (lower_other : ℕ → ℕ) (s : Stats) (r : Result GoError (List Addr))
      → dest.host ≢ []
      → d.has_dns ≡ true
      → All (IsAllowed d dest) (connect_found lower_other d s dest.host dest.port r).egress
  unfolding connect_found
  connect_found-IsAllowed lower_other s (err e) named dns = ((refl, named, dns), tt)
  connect_found-IsAllowed lower_other s (ok addrs) named dns = elim (List-cases (routable addrs)) [
    | inl none_left ↦ rw (none_left, connect_found) ((refl, named, dns), tt)
    | inr (a, rest, some_left) ↦
        rw (some_left, connect_found)
          (finish-IsAllowed lower_other s (looked_up dest.host ∷ [])
            (dial_all d 0 dest.port none (a ∷ rest)) ((refl, named, dns), tt)
            (dial_all-IsAllowed 0 none (a ∷ rest) (rw some_left at (routable-CanDial addrs))))
  ]

  -- A request uses the dialer for two things only: to look its own host up, if it names one and the
  -- tunnel has DNS, and to dial its own port at an address that is unmapped and neither 0.0.0.0 nor ::.
  pub connect-IsAllowed :
      (lower_other : ℕ → ℕ) (s : Stats)
      → All (IsAllowed d dest) (connect lower_other d s dest).egress
  unfolding connect
  connect-IsAllowed lower_other s = elim (Bool-cases (equal dest.host [])) [
    | inr named ↦
        let ne_nil : dest.host ≢ [] = λ e. cc ((equal_iff dest.host []).1 e) in
        elim (Bool-cases d.has_dns) [
          | inl dns ↦
              let counted = record s { hostname = s.hostname + 1 } in
              let found = d.lookup_host dest.host in
              ground (arith, connect_found-IsAllowed lower_other counted found ne_nil dns)
          | inr no_dns ↦ ground arith
        ]
    | inl address ↦ elim (Bool-cases (is_unspecified (unmap dest.addr))) [
      | inl unspecified ↦ ground arith
      | inr specified ↦
          let used = dial_all d 0 dest.port none (dest.addr ∷ []) in
          let dials = dial_all-IsAllowed 0 none (dest.addr ∷ []) (specified, tt) in
          ground (arith, finish-IsAllowed lower_other s [] used tt dials)
    ]
  ]
