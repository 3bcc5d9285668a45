-- ===== src/Tests/Names.antt =====
-- The resolver of internal/dns.
use awgsocks.Base.{◌≡◌, refl, false, List, [], ◌∷◌, Bytes, codes, ok}
use awgsocks.Netip.{v4}
use awgsocks.Dns.{
  Answer, Entry, Resolver, hit, begin, complete, new, find, member, remove, evict, without,
}
use awgsocks.Dns.Coalescing.{here, next, begins, completes, IsBounded, new-IsBounded}
use awgsocks.Dns.Freshness.{hit-IsRecent, IsRecent, begin-complete}
use awgsocks.Dns.Freshness.{Event, run}
use awgsocks.Dns.Freshness

abbrev site : Bytes
site = codes "example.org"

abbrev found : Answer
found = ok (v4 (93 ∷ 184 ∷ 216 ∷ 34 ∷ []) ∷ [])

abbrev asking : Resolver
asking = record new { inflight = site ∷ []; misses = 1 }

abbrev past : List Event
past = Freshness.completes 1 4 site found false ∷ Freshness.begins 1 site ∷ []

served : (begin 9 site (run past)).0 ≡ hit found
unfolding begin complete find evict member remove without
served = refl

new-IsBounded_example : IsBounded (complete 1 4 site found false (begin 1 site new).1)
new-IsBounded_example =
    new-IsBounded (next (next here (begins 1 site)) (completes 1 4 site found false))

hit-IsRecent_example : (e : Entry) × IsRecent 9 site found past e
hit-IsRecent_example = hit-IsRecent past 9 site found served
