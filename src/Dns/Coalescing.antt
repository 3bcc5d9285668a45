-- ===== src/Dns/Coalescing.antt =====
-- Bounds and uniqueness, over every interleaving of the resolver's steps.
use awgsocks.Base.{
  ℕ, ◌≤◌, ◌<◌, Bool, false, ◌||◌, List, [], ◌∷◌, ◌≡◌, refl, arith, some, length, Bytes, equal,
}
use awgsocks.Dns.{
  Answer, Entry, Resolver, without, member, remove, begin, acquire, release, unexpired, evict,
  complete, flush, new, max_entries, max_concurrent,
}

-- A step of some call. A query gets its token once the name is in flight, and gives it back before the
-- call takes the name out.
pub data Step (r : Resolver) : Resolver → Type 0 where
  begins : (now : ℕ) (host : Bytes) → Step r (begin now host r).1
  acquires : {s : Resolver} (host : Bytes) → acquire host r ≡ some s → Step r s
  releases : (host : Bytes) → Step r (release host r)
  completes :
      (began now : ℕ) (host : Bytes) (a : Answer) (gone : Bool)
      → Step r (complete began now host a gone r)
  flushes : Step r (flush r)

pub data Reach (r : Resolver) : Resolver → Type 0 where
  here : Reach r r
  next : {s t : Resolver} → Reach r s → Step s t → Reach r t

-- No name occurs twice.
abbrev pub Distinct : List Bytes → Type 0
Distinct [] = Unit
Distinct (h ∷ hs) = (member h hs ≡ false) × Distinct hs

abbrev has_entry : Bytes → List Entry → Bool
has_entry host [] = false
has_entry host (e ∷ es) = equal e.host host || has_entry host es

abbrev pub DistinctHosts : List Entry → Type 0
DistinctHosts [] = Unit
DistinctHosts (e ∷ es) = (has_entry e.host es ≡ false) × DistinctHosts es

pub record IsBounded (r : Resolver) : Type 0 where
  pub small : length r.entries ≤ max_entries
  pub one_entry : DistinctHosts r.entries
  pub one_query : Distinct r.inflight
  pub few : length r.querying ≤ max_concurrent

member-remove :
    (h host : Bytes) (hs : List Bytes) → member h hs ≡ false → member h (remove host hs) ≡ false
unfolding member remove
member-remove h host [] k = refl
member-remove h host (x ∷ hs) k = ground (arith, member-remove h host hs)

remove-Distinct : (host : Bytes) (hs : List Bytes) → Distinct hs → Distinct (remove host hs)
unfolding remove
remove-Distinct host [] d = tt
remove-Distinct host (x ∷ hs) d =
    ground (arith, remove-Distinct host hs d.1, member-remove x host hs d.0)

length-remove : (host : Bytes) (hs : List Bytes) → length (remove host hs) ≤ length hs
unfolding remove
length-remove host [] = omega arith
length-remove host (x ∷ hs) = ground (arith, length-remove host hs)

has_entry-without :
    (h host : Bytes) (es : List Entry)
    → has_entry h es ≡ false
    → has_entry h (without host es) ≡ false
unfolding without
has_entry-without h host [] k = refl
has_entry-without h host (e ∷ es) k = ground (arith, has_entry-without h host es)

has_entry-without_self : (host : Bytes) (es : List Entry) → has_entry host (without host es) ≡ false
unfolding without
has_entry-without_self host [] = refl
has_entry-without_self host (e ∷ es) = ground (arith, has_entry-without_self host es)

without-DistinctHosts :
    (host : Bytes) (es : List Entry) → DistinctHosts es → DistinctHosts (without host es)
unfolding without
without-DistinctHosts host [] d = tt
without-DistinctHosts host (e ∷ es) d =
    ground (arith, without-DistinctHosts host es d.1, has_entry-without e.host host es d.0)

length-without : (host : Bytes) (es : List Entry) → length (without host es) ≤ length es
unfolding without
length-without host [] = omega arith
length-without host (e ∷ es) = ground (arith, length-without host es)

has_entry-unexpired :
    (h : Bytes) (now : ℕ) (es : List Entry)
    → has_entry h es ≡ false
    → has_entry h (unexpired now es) ≡ false
unfolding unexpired
has_entry-unexpired h now [] k = refl
has_entry-unexpired h now (e ∷ es) k = ground (arith, has_entry-unexpired h now es)

unexpired-DistinctHosts :
    (now : ℕ) (es : List Entry) → DistinctHosts es → DistinctHosts (unexpired now es)
unfolding unexpired
unexpired-DistinctHosts now [] d = tt
unexpired-DistinctHosts now (e ∷ es) d =
    ground (arith, unexpired-DistinctHosts now es d.1, has_entry-unexpired e.host now es d.0)

-- An eviction leaves room for one more entry.
evict_lem :
    (now : ℕ) (es : List Entry)
    → DistinctHosts es
    → (length (evict now es) < max_entries) × DistinctHosts (evict now es)
unfolding evict
evict_lem now es d = ground (arith, unexpired-DistinctHosts now es d)

complete-IsBounded :
    (began now : ℕ) (host : Bytes) (a : Answer) (gone : Bool) (r : Resolver)
    → IsBounded r
    → IsBounded (complete began now host a gone r)
unfolding complete
complete-IsBounded began now host a gone r b =
    let room = evict_lem began r.entries b.one_entry in
    ground (
      arith,
      remove-Distinct host r.inflight b.one_query,
      length-without host (evict began r.entries),
      without-DistinctHosts host (evict began r.entries) room.1,
      has_entry-without_self host (evict began r.entries),
    )

Step-IsBounded : {r s : Resolver} → Step r s → IsBounded r → IsBounded s
unfolding begin acquire release flush
Step-IsBounded (begins now host) b = ground arith
Step-IsBounded (acquires host e) b = ground arith
Step-IsBounded {r} (releases host) b = ground (arith, length-remove host r.querying)
Step-IsBounded (completes began now host a gone) b = complete-IsBounded began now host a gone _ b
Step-IsBounded flushes b = ground arith

Reach-IsBounded : {r s : Resolver} → IsBounded r → Reach r s → IsBounded s
Reach-IsBounded b here = b
Reach-IsBounded b (next path step) = Step-IsBounded step (Reach-IsBounded b path)

-- However its calls interleave, a resolver holds at most 1024 entries, one for a name, asks for a name
-- at most once at a time, and has at most 8 queries under way.
pub new-IsBounded : {s : Resolver} → Reach new s → IsBounded s
new-IsBounded path =
    Reach-IsBounded
      (record { small = omega arith; one_entry = tt; one_query = tt; few = omega arith }) path
