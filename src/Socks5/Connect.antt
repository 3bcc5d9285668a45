-- ===== src/Socks5/Connect.antt =====
-- internal/socks5/server.go: `connect`, with the dialer as a parameter and a trace of its use.
pub mod Allowed
pub mod Outcome
pub mod Counters
use awgsocks.Base.{
  ℕ, suc, ◌+◌, Bool, true, false, not, ◌&&◌, ◌||◌, List, [], ◌∷◌, ◌++◌, ◌≡◌, Option, none, some,
  Bytes, codes, ◌==◌, if◌then◌else◌, Result, ok, err, equal,
}
use awgsocks.Netip.{Addr, AddrPort, unmap, is_unspecified}
use awgsocks.Socks5.Target.{Destination}
use awgsocks.Socks5.Failure.{GoError, reply_for_error, rep_host_unreachable}
use awgsocks.Socks5.Stats.{Stats, count_no_name}

-- `Dialer`: the tunnel, as far as one request sees it. `dial_tcp` is asked at the number of the
-- attempt, so that its answers may change over time; `none` is an open connection.
pub record Dialer : Type 0 where
  pub has_dns : Bool
  pub lookup_host : Bytes → Result GoError (List Addr)
  pub dial_tcp : ℕ → AddrPort → Option GoError
  pub listen_udp : Bool → Option GoError

-- A use of the dialer.
pub data Egress : Type 0 where
  looked_up : Bytes → Egress
  dialed : AddrPort → Egress
  listened : Bool → Egress
  sent_to : AddrPort → Egress

-- A use of a dialer.
abbrev pub Use : Type 0
Use = Dialer × Egress

abbrev pub through : Dialer → List Egress → List Use
through d [] = []
through d (e ∷ es) = (d, e) ∷ through d es

-- `routable`.
unfoldable pub routable : List Addr → List Addr
routable [] = []
routable (a ∷ addrs) =
    if not (is_unspecified (unmap a)) then unmap a ∷ routable addrs else routable addrs

-- The loop over the candidates: the uses of the dialer, and the target or the last error.
unfoldable pub dial_all :
    Dialer → ℕ → ℕ → Option GoError → List Addr → List Egress × Result (Option GoError) AddrPort
dial_all d n port last [] = ([], err last)
dial_all d n port last (a ∷ rest) =
    let target : AddrPort = record { addr = unmap a; port = port } in
    let later = dial_all d (suc n) port (d.dial_tcp n target) rest in
    elim (d.dial_tcp n target) [
      | none ↦ (dialed target ∷ [], ok target)
      | some e ↦ (dialed target ∷ later.0, later.1)
    ]

-- `errors.New("no destination address")`.
abbrev no_destination : GoError
no_destination = record {
  tunnel_down = false;
  not_ready = false;
  no_dns = false;
  deadline_exceeded = false;
  canceled = false;
  message = codes "no destination address";
}

pub record Attempt : Type 0 where
  pub stats : Stats
  pub egress : List Egress
  pub outcome : Result ℕ AddrPort

module _ (lower_other : ℕ → ℕ) (d : Dialer) where
  failure_code : Option GoError → ℕ
  failure_code (some e) = reply_for_error lower_other (some e) rep_host_unreachable
  failure_code none = reply_for_error lower_other (some no_destination) rep_host_unreachable

  unfoldable pub finish :
      Stats → List Egress → List Egress × Result (Option GoError) AddrPort → Attempt
  unfolding failure_code
  finish s before (used, ok target) = record {
    stats = s;
    egress = before ++ used;
    outcome = ok target;
  }
  finish s before (used, err last) = record {
    stats = s;
    egress = before ++ used;
    outcome = err (failure_code last);
  }

  -- The branch behind a lookup.
  unfoldable pub connect_found : Stats → Bytes → ℕ → Result GoError (List Addr) → Attempt
  connect_found s host port (err e) = record {
    stats = if not e.tunnel_down && not e.not_ready then count_no_name s else s;
    egress = looked_up host ∷ [];
    outcome = err (reply_for_error lower_other (some e) rep_host_unreachable);
  }
  connect_found s host port (ok addrs) = elim (routable addrs) [
    | [] ↦ record {
      stats = count_no_name s;
      egress = looked_up host ∷ [];
      outcome = err rep_host_unreachable;
    }
    | a ∷ rest ↦ finish s (looked_up host ∷ []) (dial_all d 0 port none (a ∷ rest))
  ]

  unfoldable pub connect : Stats → Destination → Attempt
  connect s dest =
      let counted = record s { hostname = s.hostname + 1 } in
      if not (equal dest.host [])
      then (if not d.has_dns
          then record {
            stats = count_no_name counted;
            egress = [];
            outcome = err rep_host_unreachable;
          }
          else connect_found counted dest.host dest.port (d.lookup_host dest.host))
      else if is_unspecified (unmap dest.addr)
      then record { stats = s; egress = []; outcome = err rep_host_unreachable }
      else finish s [] (dial_all d 0 dest.port none (dest.addr ∷ []))
