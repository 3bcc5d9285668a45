-- ===== src/Awg/Lookup/Attempts.antt =====
-- Where the queries of one lookup go.
use mathlib.Core.List.{Memᴰ}
use awgsocks.Base.{
  ℕ, zero, suc, ◌-◌, ◌%◌, ◌≤◌, ◌≡◌, ◌⊎◌, refl, arith, Bool, true, false, List, [], ◌∷◌, ◌++◌,
  Option, none, some, inl, inr, length, length-append, get_or, All, All-append, Bool-cases, if-case,
  Option-cases, Result, Result-cases, ok, err,
}
use awgsocks.Strings.{Text}
use awgsocks.Netip.{Addr, unset, unmap, is_loopback}
use awgsocks.Config.Finalize.{TunnelConfig}
use awgsocks.Awg.State.{Tunnel, Device}
use awgsocks.Awg.Dial.{Wait, wait_ready}
use awgsocks.Awg.Lookup.{
  QueryError, Network, Query, Resolution, in_tunnel, on_this_machine, Attempt, local_lookup,
  asked_at, attempts, query, tunnel_query, local_query, retry_decision, lookup_uncached,
  queried_from, resolved_for, resolved_with, dns_attempt_timeouts, ip, lookup_network,
}

get_or-Mem :
    (servers : List Addr) (i : ℕ) (d : Addr)
    → (get_or servers i d ≡ d) ⊎ Memᴰ (get_or servers i d) servers
get_or-Mem [] i d = inl refl
get_or-Mem (x ∷ xs) zero d = inr (Memᴰ.head refl)
get_or-Mem (x ∷ xs) (suc i) d = elim (get_or-Mem xs i d) [
  | inl e ↦ inl e
  | inr m ↦ inr (Memᴰ.tail m)
]

-- A query that goes to one of the resolvers on this machine, which has a loopback address.
abbrev pub IsLocal : List Addr → Query → Type 0
IsLocal servers (in_tunnel timeout) = ⊥
IsLocal servers (on_this_machine timeout network a) =
    (server : Addr) × Memᴰ server servers × (a ≡ unmap server) × (is_loopback a ≡ true)

abbrev pub IsInTunnel : Query → Type 0
IsInTunnel (in_tunnel timeout) = Unit
IsInTunnel (on_this_machine timeout network a) = ⊥

-- Where the queries may go: into the tunnel if there is no resolver on this machine, and else only there.
abbrev pub MayGo : List Addr → Query → Type 0
MayGo [] = IsInTunnel
MayGo (d ∷ local) = IsLocal (d ∷ local)

-- What was sent keeps to the limits: at most so many queries, each where it may go.
abbrev pub KeepsTo : List Addr → ℕ → List Query → Type 0
KeepsTo local n sent = All (MayGo local) sent × (length sent ≤ n)

local_lookup-near :
    (server : Addr) (r : Result QueryError (List Addr))
    → is_loopback (unmap server) ≡ true
    → (local_lookup server r).0 ≡ some (unmap server)
unfolding local_lookup
local_lookup-near server (err e) near = rw near
local_lookup-near server (ok addrs) near = rw near

local_lookup-far :
    (server : Addr) (r : Result QueryError (List Addr))
    → is_loopback (unmap server) ≡ false
    → (local_lookup server r).0 ≡ none
unfolding local_lookup
local_lookup-far server (err e) far = rw far
local_lookup-far server (ok addrs) far = rw far

unset-far : (server : Addr) → server ≡ unset → is_loopback (unmap server) ≡ true → ⊥
unfolding is_loopback unmap
unset-far server e near = ground arith

asked-IsLocal :
    (d : Addr) (local : List Addr) (server : Addr) (timeout : ℕ) (network : Network)
    (r : Result QueryError (List Addr))
    → (server ≡ unset) ⊎ Memᴰ server (d ∷ local)
    → KeepsTo (d ∷ local) 1 (asked_at timeout network (local_lookup server r).0)
asked-IsLocal d local server timeout network r from =
    elim (Bool-cases (is_loopback (unmap server))) [
      | inr far ↦ rw (local_lookup-far server r far) (tt, omega arith)
      | inl near ↦ elim from [
        | inl missing ↦ absurd (unset-far server missing near)
        | inr listed ↦
            rw (local_lookup-near server r near) (((server, listed, refl, near), tt), omega arith)
      ]
    ]

abbrev pub servers_of : Option TunnelConfig → List Addr
servers_of none = []
servers_of (some c) = c.local_dns

module _ (parse_addr : Text → Option Addr) where
  tunnel-KeepsTo :
      (timeout : ℕ) (r : Result QueryError (List Text))
      → KeepsTo [] 1 (tunnel_query parse_addr timeout r).0
  unfolding tunnel_query
  tunnel-KeepsTo timeout (err e) = ((tt, tt), omega arith)
  tunnel-KeepsTo timeout (ok names) = ((tt, tt), omega arith)

  query-KeepsTo :
      (network : Network) (local : List Addr) (n timeout : ℕ) (a : Attempt)
      → KeepsTo local 1 (query parse_addr network local n timeout a).0
  unfolding query local_query
  query-KeepsTo network [] n timeout a = tunnel-KeepsTo timeout a.stack
  query-KeepsTo network (d ∷ local) n timeout a =
      asked-IsLocal d local _ timeout network a.local
        (get_or-Mem (d ∷ local) ((n - 1) % length (d ∷ local)) unset)

  KeepsTo-append :
      (local : List Addr) (m : ℕ) (xs ys : List Query)
      → KeepsTo local 1 xs
      → KeepsTo local m ys
      → KeepsTo local (suc m) (xs ++ ys)
  KeepsTo-append local m xs ys (h, few) (k, others) =
      (All-append (MayGo local) xs ys h k, omega (arith, length-append xs ys))

  attempts-KeepsTo :
      (network : Network) (local : List Addr) (timeouts : List ℕ) (n : ℕ) (seen : Bool)
      (last : Option QueryError) (world : ℕ → Attempt)
      → KeepsTo local
          (length timeouts)
          (attempts parse_addr network local timeouts n seen last world).0
  unfolding attempts
  attempts-KeepsTo network local [] n seen last world = (tt, omega arith)
  attempts-KeepsTo network local (timeout ∷ timeouts) n seen last world =
      let (goes, few) = query-KeepsTo network local n timeout (world n) in
      if-case (λ (p : List Query × Resolution). KeepsTo local (suc (length timeouts)) p.0)
        (world n).ended _ _ (λ ended. (tt, omega arith))
        (λ live. elim (Result-cases (query parse_addr network local n timeout (world n)).1) [
          | inl (addrs, e) ↦ rw e (goes, omega (arith, few))
          | inr (why, e) ↦ elim (Bool-cases (retry_decision why seen).0) [
            | inr final ↦ rw (e, final) (goes, omega (arith, few))
            | inl again ↦
                rw (e, again)
                  (KeepsTo-append local (length timeouts) _ _ (goes, few)
                    (attempts-KeepsTo network local timeouts (suc n) (retry_decision why seen).1
                      (some why) world))
          ]
        ])

  queried-KeepsTo :
      (cfg : Option TunnelConfig) (d : Option Device) (w : Wait) (world : ℕ → Attempt)
      → KeepsTo (servers_of cfg) 3 (queried_from parse_addr cfg d w world).0
  unfolding queried_from resolved_for resolved_with
  queried-KeepsTo cfg none w world = (tt, omega arith)
  queried-KeepsTo cfg (some d) w world = elim (Option-cases (wait_ready w.rounds w.last w.reason)) [
    | inr (e, stuck) ↦ rw (queried_from, stuck) (tt, omega arith)
    | inl through ↦ rw (queried_from, through) (resolved-KeepsTo cfg)
  ]
    where
      resolved-KeepsTo :
          (c : Option TunnelConfig) → KeepsTo (servers_of c) 3 (resolved_for parse_addr c world).0
      resolved-KeepsTo none = attempts-KeepsTo ip [] dns_attempt_timeouts 1 false none world
      resolved-KeepsTo (some c) =
          attempts-KeepsTo (lookup_network c) c.local_dns dns_attempt_timeouts 1 false none world

  -- A lookup sends at most three queries. If the configuration names resolvers on this machine, each query
  -- goes to one of them, with a loopback address, and none into the tunnel; if it names none, each goes
  -- into the tunnel.
  pub lookup_uncached-KeepsTo :
      (w : Wait) (world : ℕ → Attempt) (t : Tunnel)
      → KeepsTo (servers_of t.cfg) 3 (lookup_uncached parse_addr w world t).0
  unfolding lookup_uncached
  lookup_uncached-KeepsTo w world t = elim (Bool-cases t.running) [
    | inl up ↦ rw up (queried-KeepsTo t.cfg t.device w world)
    | inr down ↦ rw down (tt, omega arith)
  ]
