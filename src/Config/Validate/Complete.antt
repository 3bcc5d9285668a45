-- ===== src/Config/Validate/Complete.antt =====
-- Which configurations are accepted.
use awgsocks.Base.{
  ℕ, ◌≡◌, ◌⊎◌, sym, subst, arith, Bool, true, false, List, [], ◌∷◌, ◌++◌, Option, some, inl, inr,
  Bytes, if◌then◌else◌, Result, ok, err, ◌>>=◌, equal, All,
}
use awgsocks.Strings.{Text}
use awgsocks.Netip.{Addr}
use awgsocks.Config.Scan.{Kv, Scan}
use awgsocks.Config.Semantics.{Warning, SemanticsError, validate_interface_semantics}
use awgsocks.Config.Params.{
  SupportedParam, interface_params, peer_params, script_hook_keys, empty_value_allowed, param,
  is_key,
}
use awgsocks.Config.Validate.Distinct.{AreDistinct, IsGood, nothing_seen, distinct-IsGood}
use awgsocks.Config.Validate.{
  no_value, duplicate, script_hook, validate_value, known_entry, known_value, interface_entry,
  interface_entries, peer_entry, peer_entries, all_peers, semantics_of, validate_scan,
}
use awgsocks.Config.Validate.Strict.{IsOk, IsKnown, IsPeerEntry, IsPeer}

then-IsOk {ℓ κ μ} :
    {E : Type ℓ} {A : Type κ} {B : Type μ} (r : Result E A) (next : A → Result E B)
    → IsOk r
    → ((a : A) → IsOk (next a))
    → IsOk (r >>= next)
then-IsOk (err e) next h f = absurd h
then-IsOk (ok a) next h f = f a

passes-IsOk {ℓ κ} :
    {E : Type ℓ} {A : Type κ} (b : Bool) (e : E) (r : Result E A)
    → b ≡ false
    → IsOk r
    → IsOk (if b then err e else r)
passes-IsOk true e r b_false h = absurd (ground arith)
passes-IsOk false e r b_false h = h

valued-IsOk {ℓ κ} :
    {E : Type ℓ} {A : Type κ} (b c : Bool) (e : E) (a : A) (r : Result E A)
    → ((b ≡ true) × (c ≡ true)) ⊎ ((b ≡ false) × IsOk r)
    → IsOk (if b then (if c then ok a else err e) else r)
valued-IsOk true true e a r h = tt
valued-IsOk true false e a r (inl h) = absurd (ground arith)
valued-IsOk true false e a r (inr h) = absurd (ground arith)
valued-IsOk false c e a r (inl h) = absurd (ground arith)
valued-IsOk false c e a r (inr h) = h.1

module _ (lower_other : ℕ → ℕ) (parse_addr : Text → Option Addr)
    (parse_prefix : Text → Option (Addr × ℕ)) (decode : Text → Option Bytes) where
  known-IsOk :
      (seen : List Text) (e : Kv) (p : SupportedParam)
      → is_key e.key seen ≡ false
      → ((equal e.value [] ≡ true) × (is_key e.key empty_value_allowed ≡ true))
        ⊎ ((equal e.value [] ≡ false)
            × IsOk (validate_value lower_other parse_addr parse_prefix decode e p))
      → IsOk (known_entry lower_other parse_addr parse_prefix decode seen e (some p))
  unfolding known_entry known_value
  known-IsOk seen e p new h =
      passes-IsOk (is_key e.key seen) (duplicate e)
        (known_value lower_other parse_addr parse_prefix decode e p) new
        (valued-IsOk (equal e.value []) (is_key e.key empty_value_allowed) (no_value e) []
          (validate_value lower_other parse_addr parse_prefix decode e p) h)

  interface_entries-IsOk :
      (seen : List Text) (es : List Kv)
      → IsGood (IsKnown lower_other parse_addr parse_prefix decode) seen es
      → IsOk (interface_entries lower_other parse_addr parse_prefix decode seen es)
  unfolding interface_entries interface_entry
  interface_entries-IsOk seen [] h = tt
  interface_entries-IsOk seen (e ∷ es) h =
      let ((known, new), rest) = h in
      let (p, at, no_hook, value) = known in
      let later = interface_entries lower_other parse_addr parse_prefix decode (e.key ∷ seen) es in
      then-IsOk (interface_entry lower_other parse_addr parse_prefix decode seen e)
        (λ w. later >>= (λ ws. ok (w ++ ws)))
        (passes-IsOk (is_key e.key script_hook_keys) (script_hook e)
          (known_entry lower_other parse_addr parse_prefix decode seen e
            (param e.key interface_params))
          no_hook
          (subst
            (λ found. IsOk (known_entry lower_other parse_addr parse_prefix decode seen e found))
            (sym at) (known-IsOk seen e p new value)))
        (λ w.
          then-IsOk later (λ ws. ok (w ++ ws)) (interface_entries-IsOk (e.key ∷ seen) es rest)
            (λ ws. tt))

  peer_entry-IsOk :
      (seen : List Text) (e : Kv) (p : SupportedParam)
      → is_key e.key seen ≡ false
      → equal e.value [] ≡ false
      → IsOk (validate_value lower_other parse_addr parse_prefix decode e p)
      → IsOk (peer_entry lower_other parse_addr parse_prefix decode seen e (some p))
  unfolding peer_entry
  peer_entry-IsOk seen e p new full valid =
      let value = validate_value lower_other parse_addr parse_prefix decode e p in
      passes-IsOk (is_key e.key seen) (duplicate e)
        (if equal e.value [] then err (no_value e) else value) new
        (passes-IsOk (equal e.value []) (no_value e) value full valid)

  peer_entries-IsOk :
      (seen : List Text) (es : List Kv)
      → IsGood (IsPeerEntry lower_other parse_addr parse_prefix decode) seen es
      → IsOk (peer_entries lower_other parse_addr parse_prefix decode seen es)
  unfolding peer_entries
  peer_entries-IsOk seen [] h = tt
  peer_entries-IsOk seen (e ∷ es) h =
      let ((entry, new), rest) = h in
      let (p, at, full, valid) = entry in
      let later = peer_entries lower_other parse_addr parse_prefix decode (e.key ∷ seen) es in
      then-IsOk
        (peer_entry lower_other parse_addr parse_prefix decode seen e (param e.key peer_params))
        (λ w. later)
        (subst (λ found. IsOk (peer_entry lower_other parse_addr parse_prefix decode seen e found))
          (sym at) (peer_entry-IsOk seen e p new full valid))
        (λ w. peer_entries-IsOk (e.key ∷ seen) es rest)

  all_peers-IsOk :
      (peers : List (List Kv))
      → All (IsPeer lower_other parse_addr parse_prefix decode) peers
      → IsOk (all_peers lower_other parse_addr parse_prefix decode peers)
  unfolding all_peers
  all_peers-IsOk [] h = tt
  all_peers-IsOk (peer ∷ peers) h =
      let ((entries, distinct), rest) = h in
      then-IsOk (peer_entries lower_other parse_addr parse_prefix decode [] peer)
        (λ w. all_peers lower_other parse_addr parse_prefix decode peers)
        (peer_entries-IsOk [] peer (
          distinct-IsGood (IsPeerEntry lower_other parse_addr parse_prefix decode) [] peer entries
            distinct (nothing_seen peer)))
        (λ w. all_peers-IsOk peers rest)

  semantics_of-IsOk : (r : Result SemanticsError (List Warning)) → IsOk r → IsOk (semantics_of r)
  unfolding semantics_of
  semantics_of-IsOk (err e) h = absurd h
  semantics_of-IsOk (ok ws) h = tt

  -- A configuration is accepted if the interface's keys are supported, distinct and run no command, their
  -- values are valid, or empty where that is allowed, and pass the checks on the whole section; and if in
  -- each peer the keys are supported and distinct, and their values valid and not empty.
  pub validate_scan-IsOk :
      (s : Scan)
      → All (IsKnown lower_other parse_addr parse_prefix decode) s.iface
      → AreDistinct s.iface
      → IsOk (validate_interface_semantics s.iface)
      → All (IsPeer lower_other parse_addr parse_prefix decode) s.peers
      → IsOk (validate_scan lower_other parse_addr parse_prefix decode s)
  unfolding validate_scan
  validate_scan-IsOk s known distinct sound peers =
      let two = semantics_of (validate_interface_semantics s.iface) in
      let three = all_peers lower_other parse_addr parse_prefix decode s.peers in
      then-IsOk (interface_entries lower_other parse_addr parse_prefix decode [] s.iface)
        (λ w. two >>= (λ w'. three >>= (λ none_kept. ok (w ++ w'))))
        (interface_entries-IsOk [] s.iface (
          distinct-IsGood (IsKnown lower_other parse_addr parse_prefix decode) [] s.iface known
            distinct (nothing_seen s.iface)))
        (λ w.
          then-IsOk two (λ w'. three >>= (λ none_kept. ok (w ++ w')))
            (semantics_of-IsOk (validate_interface_semantics s.iface) sound)
            (λ w'.
              then-IsOk three (λ none_kept. ok (w ++ w')) (all_peers-IsOk s.peers peers)
                (λ none_kept. tt)))
