-- ===== src/Config/Validate/Strict.antt =====
-- What a configuration that is accepted consists of.
use awgsocks.Base.{
  ℕ, ◌≡◌, ◌⊎◌, refl, arith, Bool, true, false, List, [], ◌∷◌, ◌++◌, Option, none, some, inl, inr,
  Bytes, if◌then◌else◌, Result, ok, err, ◌>>=◌, equal, All,
}
use awgsocks.Strings.{Text}
use awgsocks.Netip.{Addr}
use awgsocks.Config.Scan.{Kv, Scan}
use awgsocks.Config.Semantics.{Warning, SemanticsError, validate_interface_semantics}
use awgsocks.Config.Params.{
  SupportedParam, interface_params, peer_params, script_hook_keys, empty_value_allowed, param,
  is_key,
}
use awgsocks.Config.Validate.Distinct.{AreDistinct, IsGood, IsGood-All, IsGood-AreDistinct}
use awgsocks.Config.Validate.{
  PolicyError, ScanWarning, no_value, duplicate, script_hook, validate_value, known_entry,
  interface_entry, interface_entries, peer_entry, peer_entries, all_peers, semantics_of,
  known_value, validate_scan,
}

abbrev pub IsOk {ℓ κ} : {E : Type ℓ} {A : Type κ} → Result E A → Type 0
IsOk (err e) = ⊥
IsOk (ok a) = Unit

first-IsOk {ℓ κ μ} :
    {E : Type ℓ} {A : Type κ} {B : Type μ} (r : Result E A) (next : A → Result E B)
    → IsOk (r >>= next)
    → (a : A) × (r ≡ ok a) × IsOk (next a)
first-IsOk (err e) next h = absurd h
first-IsOk (ok a) next h = (a, refl, h)

unless-IsOk {ℓ κ} :
    {E : Type ℓ} {A : Type κ} (b : Bool) (e : E) (r : Result E A)
    → IsOk (if b then err e else r)
    → (b ≡ false) × IsOk r
unless-IsOk true e r h = absurd h
unless-IsOk false e r h = (refl, h)

value-IsOk {ℓ κ} :
    {E : Type ℓ} {A : Type κ} (b c : Bool) (e : E) (a : A) (r : Result E A)
    → IsOk (if b then (if c then ok a else err e) else r)
    → ((b ≡ true) × (c ≡ true)) ⊎ ((b ≡ false) × IsOk r)
value-IsOk true true e a r h = inl (refl, refl)
value-IsOk true false e a r h = absurd h
value-IsOk false c e a r h = inr (refl, h)

ok-IsOk {ℓ κ} : {E : Type ℓ} {A : Type κ} (r : Result E A) (a : A) → r ≡ ok a → IsOk r
ok-IsOk (err e) a h = absurd (ground arith)
ok-IsOk (ok b) a h = tt

module _ (lower_other : ℕ → ℕ) (parse_addr : Text → Option Addr)
    (parse_prefix : Text → Option (Addr × ℕ)) (decode : Text → Option Bytes) where
  abbrev value_of : Kv → SupportedParam → Result PolicyError (List ScanWarning)
  value_of = validate_value lower_other parse_addr parse_prefix decode

  -- An entry of the interface: its key is supported and runs no command, and its value is valid, or
  -- empty where that is allowed.
  abbrev pub IsKnown : Kv → Type 0
  IsKnown e =
      (p : SupportedParam) × (param e.key interface_params ≡ some p)
      × (is_key e.key script_hook_keys ≡ false)
      × (((equal e.value [] ≡ true) × (is_key e.key empty_value_allowed ≡ true))
          ⊎ ((equal e.value [] ≡ false) × IsOk (value_of e p)))

  -- An entry of a peer: its key is supported and its value is valid and not empty.
  abbrev pub IsPeerEntry : Kv → Type 0
  IsPeerEntry e =
      (p : SupportedParam) × (param e.key peer_params ≡ some p)
      × (equal e.value [] ≡ false)
      × IsOk (value_of e p)

  abbrev known : List Text → Kv → Option SupportedParam → Result PolicyError (List ScanWarning)
  known = known_entry lower_other parse_addr parse_prefix decode

  known_entry-IsKnown :
      (seen : List Text) (e : Kv) (found : Option SupportedParam)
      → param e.key interface_params ≡ found
      → is_key e.key script_hook_keys ≡ false
      → IsOk (known seen e found)
      → IsKnown e × (is_key e.key seen ≡ false)
  unfolding known_entry known_value
  known_entry-IsKnown seen e none at no_hook h = absurd h
  known_entry-IsKnown seen e (some p) at no_hook h =
      let (new, rest) =
        unless-IsOk (is_key e.key seen) (duplicate e)
          (known_value lower_other parse_addr parse_prefix decode e p) h in
      (
        (
          p,
          at,
          no_hook,
          value-IsOk (equal e.value []) (is_key e.key empty_value_allowed) (no_value e) []
              (value_of e p) rest,
        ),
        new,
      )

  interface_entries-IsGood :
      (seen : List Text) (es : List Kv)
      → IsOk (interface_entries lower_other parse_addr parse_prefix decode seen es)
      → IsGood IsKnown seen es
  unfolding interface_entries interface_entry
  interface_entries-IsGood seen [] h = tt
  interface_entries-IsGood seen (e ∷ es) h =
      let one = interface_entry lower_other parse_addr parse_prefix decode seen e in
      let rest = interface_entries lower_other parse_addr parse_prefix decode (e.key ∷ seen) es in
      let (w, first, more) = first-IsOk one (λ w. rest >>= (λ ws. ok (w ++ ws))) h in
      let (ws, second, done) = first-IsOk rest (λ ws. ok (w ++ ws)) more in
      let (no_hook, entry) =
        unless-IsOk (is_key e.key script_hook_keys) (script_hook e)
          (known seen e (param e.key interface_params)) (ok-IsOk one w first) in
      (
        known_entry-IsKnown seen e (param e.key interface_params) refl no_hook entry,
        interface_entries-IsGood (e.key ∷ seen) es (ok-IsOk rest ws second),
      )

  peer_entry-IsPeerEntry :
      (seen : List Text) (e : Kv) (found : Option SupportedParam)
      → param e.key peer_params ≡ found
      → IsOk (peer_entry lower_other parse_addr parse_prefix decode seen e found)
      → IsPeerEntry e × (is_key e.key seen ≡ false)
  unfolding peer_entry
  peer_entry-IsPeerEntry seen e none at h = absurd h
  peer_entry-IsPeerEntry seen e (some p) at h =
      let (new, rest) =
        unless-IsOk (is_key e.key seen) (duplicate e)
          (if equal e.value [] then err (no_value e) else value_of e p) h in
      let (full, valid) = unless-IsOk (equal e.value []) (no_value e) (value_of e p) rest in
      ((p, at, full, valid), new)

  peer_entries-IsGood :
      (seen : List Text) (es : List Kv)
      → IsOk (peer_entries lower_other parse_addr parse_prefix decode seen es)
      → IsGood IsPeerEntry seen es
  unfolding peer_entries
  peer_entries-IsGood seen [] h = tt
  peer_entries-IsGood seen (e ∷ es) h =
      let one =
        peer_entry lower_other parse_addr parse_prefix decode seen e (param e.key peer_params) in
      let rest = peer_entries lower_other parse_addr parse_prefix decode (e.key ∷ seen) es in
      let (w, first, more) = first-IsOk one (λ w. rest) h in
      (
        peer_entry-IsPeerEntry seen e (param e.key peer_params) refl (ok-IsOk one w first),
        peer_entries-IsGood (e.key ∷ seen) es more,
      )

  -- A peer whose entries are all supported and valid, and whose keys are distinct.
  abbrev pub IsPeer : List Kv → Type 0
  IsPeer es = All IsPeerEntry es × AreDistinct es

  all_peers-IsPeer :
      (peers : List (List Kv))
      → IsOk (all_peers lower_other parse_addr parse_prefix decode peers)
      → All IsPeer peers
  unfolding all_peers
  all_peers-IsPeer [] h = tt
  all_peers-IsPeer (peer ∷ peers) h =
      let one = peer_entries lower_other parse_addr parse_prefix decode [] peer in
      let rest = all_peers lower_other parse_addr parse_prefix decode peers in
      let (w, first, more) = first-IsOk one (λ w. rest) h in
      let good = peer_entries-IsGood [] peer (ok-IsOk one w first) in
      (
        (IsGood-All IsPeerEntry [] peer good, IsGood-AreDistinct IsPeerEntry [] peer good),
        all_peers-IsPeer peers more,
      )

  semantics-IsOk : (r : Result SemanticsError (List Warning)) → IsOk (semantics_of r) → IsOk r
  unfolding semantics_of
  semantics-IsOk (err e) h = absurd h
  semantics-IsOk (ok ws) h = tt

  -- In a configuration that is accepted, the interface's keys are supported, distinct and run no
  -- command, their values are valid, or empty where that is allowed, and pass the checks on the whole
  -- section; and in each peer the keys are supported and distinct, and their values valid and not empty.
  pub validate_scan-IsStrict :
      (s : Scan)
      → IsOk (validate_scan lower_other parse_addr parse_prefix decode s)
      → All IsKnown s.iface
        × AreDistinct s.iface
        × IsOk (validate_interface_semantics s.iface)
        × All IsPeer s.peers
  unfolding validate_scan
  validate_scan-IsStrict s h =
      let one = interface_entries lower_other parse_addr parse_prefix decode [] s.iface in
      let two = semantics_of (validate_interface_semantics s.iface) in
      let three = all_peers lower_other parse_addr parse_prefix decode s.peers in
      let (w, first, more) =
        first-IsOk one (λ w. two >>= (λ w'. three >>= (λ none_kept. ok (w ++ w')))) h in
      let (w', second, last) = first-IsOk two (λ w'. three >>= (λ none_kept. ok (w ++ w'))) more in
      let (w'', third, done) = first-IsOk three (λ none_kept. ok (w ++ w')) last in
      let good = interface_entries-IsGood [] s.iface (ok-IsOk one w first) in
      (
        IsGood-All IsKnown [] s.iface good,
        IsGood-AreDistinct IsKnown [] s.iface good,
        semantics-IsOk (validate_interface_semantics s.iface) (ok-IsOk two w' second),
        all_peers-IsPeer s.peers (ok-IsOk three w'' third),
      )
