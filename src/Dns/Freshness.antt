-- ===== src/Dns/Freshness.antt =====
-- Where a cached answer comes from, and for how long it is served.
use awgsocks.Base.{
  ℕ, ◌+◌, ◌<◌, Bool, true, false, List, [], ◌∷◌, ◌≡◌, ◌⊎◌, refl, subst, arith, some, ltb,
  if◌then◌else◌, Bytes, equal, equal_iff, equal_self, All, All-imp, Bool-cases, Option-cases, inl,
  inr,
}
use awgsocks.Dns.{
  Answer, Entry, Resolver, hit, ask, find, without, member, remove, begin, unexpired, evict,
  complete, flush, new, is_cached, ttl,
}

-- The parts of a resolver's life that touch the cache, latest first.
pub data Event : Type 0 where
  begins : ℕ → Bytes → Event
  completes : ℕ → ℕ → Bytes → Answer → Bool → Event
  flushes : Event

abbrev pub run : List Event → Resolver
run [] = new
run (begins now host ∷ es) = (begin now host (run es)).1
run (completes began now host a gone ∷ es) = complete began now host a gone (run es)
run (flushes ∷ es) = flush (run es)

-- The entry is what some query for its name was answered, at the time of the answer, and the cache has
-- not been flushed since.
abbrev pub WasAnswered : Entry → List Event → Type 0
WasAnswered e [] = ⊥
WasAnswered e (begins now host ∷ es) = WasAnswered e es
WasAnswered e (flushes ∷ es) = ⊥
WasAnswered e (completes began now host a gone ∷ es) =
    ((e ≡ record { host = host; answer = a; expires = now + ttl a }) × (is_cached a gone ≡ true))
    ⊎ WasAnswered e es

find-host : (host : Bytes) (es : List Entry) (e : Entry) → find host es ≡ some e → e.host ≡ host
unfolding find
find-host host [] e h = cc
find-host host (x ∷ es) e h = ground (arith, equal_iff x.host host, find-host host es e)

module _ (P : Entry → Type 0) where
  find-All :
      (host : Bytes) (es : List Entry) (e : Entry)
      → All P es
      → find host es ≡ some e
      → P e × (e.host ≡ host)
  unfolding find
  find-All host [] e h f = cc
  find-All host (x ∷ es) e h f = elim (Bool-cases (equal x.host host)) [
    | inl here ↦
        let same : x ≡ e = ground arith in (subst P same h.0, ground (arith, equal_iff x.host host))
    | inr later ↦ find-All host es e h.1 (ground arith)
  ]

  without-All : (host : Bytes) (es : List Entry) → All P es → All P (without host es)
  unfolding without
  without-All host [] h = tt
  without-All host (e ∷ es) h = ground (arith, without-All host es h.1)

  unexpired-All : (now : ℕ) (es : List Entry) → All P es → All P (unexpired now es)
  unfolding unexpired
  unexpired-All now [] h = tt
  unexpired-All now (e ∷ es) h = ground (arith, unexpired-All now es h.1)

  evict-All : (now : ℕ) (es : List Entry) → All P es → All P (evict now es)
  unfolding evict
  evict-All now es h = ground (arith, unexpired-All now es h)

complete-All :
    (P : Entry → Type 0) (began now : ℕ) (host : Bytes) (a : Answer) (gone : Bool) (r : Resolver)
    → All P r.entries
    → (is_cached a gone ≡ true → P (record { host = host; answer = a; expires = now + ttl a }))
    → All P (complete began now host a gone r).entries
unfolding complete
complete-All P began now host a gone r h stored = elim (Bool-cases (is_cached a gone)) [
  | inl cached ↦
      let kept = without-All P host (evict began r.entries) (evict-All P began r.entries h) in
      rw cached (stored cached, kept)
  | inr ignored ↦ rw ignored h
]

begin-entries : (now : ℕ) (host : Bytes) (r : Resolver) → (begin now host r).1.entries ≡ r.entries
unfolding begin
begin-entries now host r = ground arith

-- Every entry of a cache is an answer to its name since the last flush.
entries-WasAnswered : (es : List Event) → All (λ e. WasAnswered e es) (run es).entries
entries-WasAnswered [] = tt
entries-WasAnswered (begins now host ∷ es) =
    rw (begin-entries now host (run es)) (entries-WasAnswered es)
entries-WasAnswered (flushes ∷ es) = unfold flush in tt
entries-WasAnswered (completes began now host a gone ∷ es) =
    let r = run es in
    let old =
      All-imp _ (λ e. WasAnswered e (completes began now host a gone ∷ es)) r.entries (λ e h. inr h)
        (entries-WasAnswered es) in
    complete-All (λ e. WasAnswered e (completes began now host a gone ∷ es)) began now host a gone r
      old (λ cached. inl (refl, cached))

-- A hit comes from an entry for the name that has not expired.
begin-hit :
    (now : ℕ) (host : Bytes) (r : Resolver) (a : Answer)
    → (begin now host r).0 ≡ hit a
    → (e : Entry) × (find host r.entries ≡ some e) × (e.answer ≡ a) × (now < e.expires)
unfolding begin
begin-hit now host r a h = elim (Option-cases (find host r.entries)) [
  | inl missing ↦ absurd (ground arith)
  | inr (e, found) ↦ (e, found, ground arith, ground arith)
]

abbrev pub IsRecent : ℕ → Bytes → Answer → List Event → Entry → Type 0
IsRecent now host a es e = WasAnswered e es × (e.host ≡ host) × (e.answer ≡ a) × (now < e.expires)

-- After any history of lookups, answers and flushes, what the cache serves for a name is the answer
-- that a query for this very name was given since the last flush, less than its time to live ago.
pub hit-IsRecent :
    (es : List Event) (now : ℕ) (host : Bytes) (a : Answer)
    → (begin now host (run es)).0 ≡ hit a
    → (e : Entry) × IsRecent now host a es e
hit-IsRecent es now host a h =
    let (e, found, same, fresh) = begin-hit now host (run es) a h in
    let (answered, named) =
      find-All (λ e. WasAnswered e es) host (run es).entries e (entries-WasAnswered es) found in
    (e, (answered, named, same, fresh))

-- Behind a query, the name is served its answer until the time to live is over, and is asked for again
-- after that; a failure is not kept if the caller had gone.
pub begin-complete :
    (began now later : ℕ) (host : Bytes) (a : Answer) (gone : Bool) (r : Resolver)
    → is_cached a gone ≡ true
    → member host (remove host r.inflight) ≡ false
    → (begin later host (complete began now host a gone r)).0
      ≡ (if ltb later (now + ttl a) then hit a else ask)
unfolding begin complete find
begin-complete began now later host a gone r cached alone = ground (arith, equal_self host)
