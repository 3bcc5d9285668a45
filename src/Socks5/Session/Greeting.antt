-- ===== src/Socks5/Session/Greeting.antt =====
-- The method negotiation against the greeting of RFC 1928.
use awgsocks.Base.{
  ℕ, ◌<◌, Bool, true, false, ◌||◌, [], ◌∷◌, ◌++◌, ◌≡◌, ◌↔◌, refl, some, arith, Bytes, length,
  get_or, ◌==◌, ok, inl, inr, length-append, take-append, drop-append, take-append-drop,
  length-take, Option-cases,
}
use awgsocks.Socks5.Target.{socks_version, method_no_auth}
use awgsocks.Socks5.Session.{Conn, read_full, offer, negotiate}

-- A read gives the first bytes and leaves the others.
pub read_full-append :
    (b rest : Bytes) (c : Conn)
    → c.input ≡ b ++ rest
    → read_full (length b) c ≡ some (b, record c { input = rest })
unfolding read_full
read_full-append b rest c e = rw e (
    ground (
      arith,
      length-append b rest,
      take-append b rest (length b) refl,
      drop-append b rest (length b) refl,
    ))

pub read_full-eq-some :
    (n : ℕ) (c : Conn) (b : Bytes) (c' : Conn)
    → read_full n c ≡ some (b, c')
    → (length b ≡ n) × (c.input ≡ b ++ c'.input) × (c' ≡ record c { input = c'.input })
unfolding read_full
read_full-eq-some n c b c' e = ground (arith, length-take n c.input, take-append-drop n c.input)

-- "No authentication" is among the methods.
abbrev pub offers_no_auth : Bytes → Bool
offers_no_auth [] = false
offers_no_auth (m ∷ methods) = m == method_no_auth || offers_no_auth methods

offer_iff :
    (methods : Bytes) (c c' : Conn)
    → (offer methods c ≡ (c', ok tt)) ↔ (
        (offers_no_auth methods ≡ true)
        × (c.broken ≡ false)
        × (c' ≡ record c { output = c.output ++ socks_version ∷ method_no_auth ∷ [] }))
unfolding offer
offer_iff [] c c' = ground arith
offer_iff (m ∷ methods) c c' = ground (arith, offer_iff methods c c')

-- A greeting that can succeed, and the connection behind it.
pub record IsGreeting (c c' : Conn) : Type 0 where
  pub methods : Bytes
  pub rest : Bytes
  pub sent : c.input ≡ socks_version ∷ length methods ∷ (methods ++ rest)
  pub some_method : 0 < length methods
  pub no_auth : offers_no_auth methods ≡ true
  pub writable : c.broken ≡ false
  pub after :
      c' ≡ record c { input = rest; output = c.output ++ socks_version ∷ method_no_auth ∷ [] }

pub pair_of : (b : Bytes) → length b ≡ 2 → b ≡ get_or b 0 0 ∷ get_or b 1 0 ∷ []
pair_of [] h = absurd (omega arith)
pair_of (x ∷ []) h = absurd (omega arith)
pair_of (x ∷ y ∷ []) h = refl
pair_of (x ∷ y ∷ z ∷ b) h = absurd (omega arith)

IsGreeting-negotiate : (c c' : Conn) → IsGreeting c c' → negotiate c ≡ (c', ok tt)
unfolding negotiate
IsGreeting-negotiate c c' g =
    let head = socks_version ∷ length g.methods ∷ [] in
    let body = record c { input = g.methods ++ g.rest } in
    ground (
      arith,
      read_full-append head (g.methods ++ g.rest) c g.sent,
      read_full-append g.methods g.rest body refl,
      offer_iff g.methods (record c { input = g.rest }) c',
    )

negotiate-IsGreeting : (c c' : Conn) → negotiate c ≡ (c', ok tt) → IsGreeting c c'
unfolding negotiate
negotiate-IsGreeting c c' e = elim (Option-cases (read_full 2 c)) [
  | inl short ↦ absurd (ground arith)
  | inr ((header, c1), read) ↦
      let n = get_or header 1 0 in
      elim (Option-cases (read_full n c1)) [
        | inl short ↦ absurd (ground arith)
        | inr ((methods, c2), read_methods) ↦
            let first = read_full-eq-some 2 c header c1 read in
            let second = read_full-eq-some n c1 methods c2 read_methods in
            let bytes = pair_of header first.0 in
            let offered = (offer_iff methods c2 c').0 (ground arith) in
            record {
              methods = methods;
              rest = c2.input;
              sent = ground arith;
              some_method = ground arith;
              no_auth = offered.0;
              writable = ground arith;
              after = ground arith;
            }
      ]
]

-- The negotiation succeeds exactly for a greeting of version 5 that has a method, offers "no
-- authentication" and comes from a client that can be written to; the client is then told so, and
-- what it sent behind the greeting is still to be read.
pub negotiate_iff : (c c' : Conn) → (negotiate c ≡ (c', ok tt)) ↔ IsGreeting c c'
negotiate_iff c c' = (negotiate-IsGreeting c c', IsGreeting-negotiate c c')
