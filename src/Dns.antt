-- ===== src/Dns.antt =====
-- internal/dns/resolver.go: the cache in front of the tunnel's DNS. One step for each critical section:
-- `begin` up to the query, `complete` behind it. Time is in nanoseconds.
pub mod Coalescing
pub mod Freshness
use awgsocks.Base.{
  ℕ, suc, ◌+◌, ◌*◌, Bool, true, false, not, ◌&&◌, ◌||◌, List, [], ◌∷◌, ◌≡◌, Option, none, some, ltb,
  leb, if◌then◌else◌, length, Bytes, equal, Result, ok, err,
}
use awgsocks.Netip.{Addr}
use awgsocks.Socks5.Failure.{GoError}

-- A second.
abbrev pub second : ℕ
second = 1000000000

abbrev pub positive_ttl : ℕ
positive_ttl = 60 * second

abbrev pub negative_ttl : ℕ
negative_ttl = 5 * second

abbrev pub max_entries : ℕ
max_entries = 1024

abbrev pub max_concurrent : ℕ
max_concurrent = 8

abbrev pub Answer : Type 0
Answer = Result GoError (List Addr)

-- `entry`.
pub record Entry : Type 0 where
  pub host : Bytes
  pub answer : Answer
  pub expires : ℕ

-- `Resolver`: `entries` has one entry for a host at most; `inflight` the hosts that are being asked
-- for, `querying` those whose query holds a token of `sem`.
pub record Resolver : Type 0 where
  pub entries : List Entry
  pub inflight : List Bytes
  pub querying : List Bytes
  pub hits : ℕ
  pub misses : ℕ
  pub coalesced : ℕ

-- `New`.
abbrev pub new : Resolver
new = record { entries = []; inflight = []; querying = []; hits = 0; misses = 0; coalesced = 0 }

-- `r.entries[host]`.
unfoldable pub find : Bytes → List Entry → Option Entry
find host [] = none
find host (e ∷ es) = if equal e.host host then some e else find host es

-- `delete` and the assignment `r.entries[host] = …`.
unfoldable pub without : Bytes → List Entry → List Entry
without host [] = []
without host (e ∷ es) = if equal e.host host then without host es else e ∷ without host es

abbrev pub store : Entry → List Entry → List Entry
store e es = e ∷ without e.host es

unfoldable pub member : Bytes → List Bytes → Bool
member host [] = false
member host (h ∷ hs) = equal h host || member host hs

unfoldable pub remove : Bytes → List Bytes → List Bytes
remove host [] = []
remove host (h ∷ hs) = if equal h host then hs else h ∷ remove host hs

-- What `Lookup` does first.
pub data Start : Type 0 where
  hit : Answer → Start
  join : Start
  ask : Start

abbrev pub is_fresh : ℕ → Option Entry → Option Answer
is_fresh now none = none
is_fresh now (some e) = if ltb now e.expires then some e.answer else none

-- `Lookup` up to the query: a fresh answer, the wait for a query that is under way, or a new query.
unfoldable pub begin : ℕ → Bytes → Resolver → Start × Resolver
begin now host r = elim (is_fresh now (find host r.entries)) [
  | some a ↦ (hit a, record r { hits = r.hits + 1 })
  | none ↦
      if member host r.inflight
      then (join, record r { coalesced = r.coalesced + 1 })
      else (ask, record r { inflight = host ∷ r.inflight; misses = r.misses + 1 })
]

-- `limitedLookup`: the query for `host` gets a token, if one is left.
unfoldable pub acquire : Bytes → Resolver → Option Resolver
acquire host r =
    if ltb (length r.querying) max_concurrent
    then some (record r { querying = host ∷ r.querying })
    else none

-- Its deferred release.
unfoldable pub release : Bytes → Resolver → Resolver
release host r = record r { querying = remove host r.querying }

-- The entries that have not expired.
unfoldable pub unexpired : ℕ → List Entry → List Entry
unexpired now [] = []
unexpired now (e ∷ es) = if ltb e.expires now then unexpired now es else e ∷ unexpired now es

-- `evictLocked`.
unfoldable pub evict : ℕ → List Entry → List Entry
evict now es =
    if ltb (length es) max_entries
    then es
    else (let kept = unexpired now es in if leb max_entries (length kept) then [] else kept)

abbrev pub ttl : Answer → ℕ
ttl (ok addrs) = positive_ttl
ttl (err e) = negative_ttl

-- The answer says something of the name: the query succeeded, or the caller was still waiting.
abbrev pub is_cached : Answer → Bool → Bool
is_cached (ok addrs) gone = true
is_cached (err e) gone = not gone

-- `Lookup` behind the query, which was begun at `began` and answered at `now`; `gone` says that the
-- caller's context has ended.
unfoldable pub complete : ℕ → ℕ → Bytes → Answer → Bool → Resolver → Resolver
complete began now host a gone r =
    let left = record r { inflight = remove host r.inflight } in
    if is_cached a gone
    then record left {
      entries =
          store (record { host = host; answer = a; expires = now + ttl a }) (evict began r.entries);
    }
    else left

-- `Flush`.
unfoldable pub flush : Resolver → Resolver
flush r = record r { entries = [] }
