-- ===== src/Awg/Lookup.antt =====
-- internal/awg/tunnel.go: `lookupUncached` and `retryDecision`; internal/localdns/localdns.go: `Lookup`.
pub mod Attempts
use awgsocks.Base.{
  ℕ, suc, ◌+◌, ◌-◌, ◌%◌, Bool, true, false, not, ◌&&◌, ◌||◌, List, [], ◌∷◌, ◌++◌, map, Option, none,
  some, Bytes, codes, ◌==◌, length, get_or, if◌then◌else◌, Result, ok, err, equal,
}
use awgsocks.Strings.{Text}
use awgsocks.Netip.{Addr, unset, unmap, is_loopback}
use awgsocks.Config.Finalize.{TunnelConfig, has_family}
use awgsocks.Socks5.Failure.{GoError}
use awgsocks.Dns.{Answer, second}
use awgsocks.Awg.State.{Tunnel, Device, tunnel_down_error, plain_error, wrap}
use awgsocks.Awg.Dial.{Wait, wait_ready}

-- A resolver's error: what `errors.As` and `errors.Is` say of it.
pub record QueryError : Type 0 where
  pub go : GoError
  pub is_dns : Bool
  pub is_not_found : Bool
  pub is_dns_timeout : Bool
  pub dns_text : Text
  pub is_timeout : Bool

-- `retryDecision`.
unfoldable pub retry_decision : QueryError → Bool → Bool × Bool
retry_decision e not_found_seen =
    if e.is_dns && e.is_not_found
    then (not not_found_seen, true)
    else if e.is_dns && (e.is_dns_timeout || equal e.dns_text (codes "i/o timeout"))
    then (true, not_found_seen)
    else if e.is_timeout
    then (true, not_found_seen)
    else (e.go.deadline_exceeded, not_found_seen)

-- `dnsAttemptTimeouts`.
abbrev pub dns_attempt_timeouts : List ℕ
dns_attempt_timeouts = 2000000000 ∷ 4000000000 ∷ 6000000000 ∷ []

pub data Network : Type 0 where
  ip4 ip6 ip : Network

-- `lookupNetwork`.
unfoldable pub lookup_network : TunnelConfig → Network
lookup_network c =
    let has4 = has_family false c in
    let has6 = has_family true c in
    if has4 && not has6 then ip4 else if has6 && not has4 then ip6 else ip

-- A query: the attempt's timeout, and the resolver on this machine if it goes there.
pub data Query : Type 0 where
  in_tunnel : ℕ → Query
  on_this_machine : ℕ → Network → Addr → Query

refused : QueryError
refused = record {
  go = plain_error (codes "a local DNS server must be a loopback address");
  is_dns = false;
  is_not_found = false;
  is_dns_timeout = false;
  dns_text = [];
  is_timeout = false;
}

-- `localdns.Lookup`: `answer` is what Go's resolver says; the server that was asked, if it was.
unfoldable pub local_lookup :
    Addr → Result QueryError (List Addr) → Option Addr × Result QueryError (List Addr)
unfolding refused
local_lookup server (err e) =
    if not (is_loopback (unmap server)) then (none, err refused) else (some (unmap server), err e)
local_lookup server (ok addrs) =
    if not (is_loopback (unmap server))
    then (none, err refused)
    else (some (unmap server), ok (map unmap addrs))

abbrev asked_at : ℕ → Network → Option Addr → List Query
asked_at timeout network none = []
asked_at timeout network (some a) = on_this_machine timeout network a ∷ []

-- What one attempt meets: whether the caller's context has ended before it, and the answers of the
-- stack's resolver and of Go's.
pub record Attempt : Type 0 where
  pub ended : Bool
  pub stack : Result QueryError (List Text)
  pub local : Result QueryError (List Addr)

-- The result of the loop: the addresses, a resolver's error, an answer without an address, or no
-- attempt at all.
pub data Resolution : Type 0 where
  found : List Addr → Resolution
  no_usable_address : Resolution
  failed_with : QueryError → Resolution
  not_tried : Resolution

unless_tried : Option QueryError → Resolution
unless_tried none = not_tried
unless_tried (some e) = failed_with e

-- An attempt without an error.
answered : List Addr → Resolution
answered [] = no_usable_address
answered (a ∷ addrs) = found (a ∷ addrs)

module _ (parse_addr : Text → Option Addr) where
  -- The addresses among the texts that the stack's resolver returns.
  unfoldable pub parsed : List Text → List Addr
  parsed [] = []
  parsed (n ∷ ns) =
      let rest = parsed ns in elim (parse_addr n) [ none ↦ rest | some a ↦ unmap a ∷ rest ]

  tunnel_query : ℕ → Result QueryError (List Text) → List Query × Result QueryError (List Addr)
  tunnel_query timeout (err e) = (in_tunnel timeout ∷ [], err e)
  tunnel_query timeout (ok names) = (in_tunnel timeout ∷ [], ok (parsed names))

  local_query :
      ℕ
      → Network
      → Option Addr × Result QueryError (List Addr)
      → List Query × Result QueryError (List Addr)
  local_query timeout network (asked, answer) = (asked_at timeout network asked, answer)

  -- `query`, at the attempt with the number `n`.
  query : Network → List Addr → ℕ → ℕ → Attempt → List Query × Result QueryError (List Addr)
  unfolding tunnel_query local_query
  query network [] n timeout a = tunnel_query timeout a.stack
  query network (d ∷ local) n timeout a =
      local_query timeout network
        (local_lookup (get_or (d ∷ local) ((n - 1) % length (d ∷ local)) unset) a.local)

  -- The loop, from the attempt with the number `n` on.
  unfoldable pub attempts :
      Network
      → List Addr
      → List ℕ
      → ℕ
      → Bool
      → Option QueryError
      → (ℕ → Attempt)
      → List Query × Resolution
  unfolding query unless_tried answered
  attempts network local [] n seen last world = ([], unless_tried last)
  attempts network local (timeout ∷ timeouts) n seen last world =
      if (world n).ended
      then ([], unless_tried last)
      else (let (used, answer) = query network local n timeout (world n) in
          elim answer [
            | ok addrs ↦ (used, answered addrs)
            | err e ↦
                let (retry, seen') = retry_decision e seen in
                let later = attempts network local timeouts (suc n) seen' (some e) world in
                if not retry then (used, failed_with e) else (used ++ later.0, later.1)
          ])

  failure : Text → Resolution → Answer
  failure source (found addrs) = ok addrs
  failure source no_usable_address =
      err (plain_error (source ++ codes " returned no usable address"))
  failure source (failed_with e) = err (wrap (source ++ codes " resolution failed: ") e.go)
  failure source not_tried = err (plain_error (source ++ codes " resolution failed: %!w(<nil>)"))

  source_of : List Addr → Text
  source_of [] = codes "in-tunnel DNS"
  source_of (d ∷ local) = codes "local DNS"

  resolved_with : Network → List Addr → (ℕ → Attempt) → List Query × Answer
  unfolding attempts failure source_of
  resolved_with network local world =
      let (used, r) = attempts network local dns_attempt_timeouts 1 false none world in
      (used, failure (source_of local) r)

  -- The resolvers on this machine, and the network that they are asked for.
  resolved_for : Option TunnelConfig → (ℕ → Attempt) → List Query × Answer
  unfolding resolved_with
  resolved_for none world = resolved_with ip [] world
  resolved_for (some c) world = resolved_with (lookup_network c) c.local_dns world

  queried_from : Option TunnelConfig → Option Device → Wait → (ℕ → Attempt) → List Query × Answer
  unfolding resolved_for
  queried_from cfg none w world = ([], err tunnel_down_error)
  queried_from cfg (some d) w world = elim (wait_ready w.rounds w.last w.reason) [
    | some e ↦ ([], err e)
    | none ↦ resolved_for cfg world
  ]

  -- `lookupUncached`. The host in the errors' texts is left out.
  unfoldable pub lookup_uncached : Wait → (ℕ → Attempt) → Tunnel → List Query × Answer
  unfolding queried_from
  lookup_uncached w world t =
      if not t.running then ([], err tunnel_down_error) else queried_from t.cfg t.device w world
