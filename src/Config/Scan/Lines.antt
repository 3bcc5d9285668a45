-- ===== src/Config/Scan/Lines.antt =====
-- Where the entries of a scan come from.
use awgsocks.Base.{
  ℕ, suc, ◌≡◌, refl, sym, ◌∙◌, arith, Bool, true, false, List, [], ◌∷◌, ◌++◌, append_assoc, Option,
  none, some, Result, ok, err, ◌>>=◌, All, All-append, length, length-append, if◌then◌else◌, subst,
  not, equal, codes,
}
use awgsocks.Strings.{Text, trim_space, cut, split}
use awgsocks.Config.Scan.{
  Kv, Scan, Section, unknown_section, outside, ScanError, no_section, interface_section,
  peer_section, section_name, flush_peer, add_entry, in_section, normalize_key, enter, add_line,
  scan_stripped, scan_line, scan_lines, scan_content, with_interface, finish, empty_scan,
  scan_config,
}

-- The line without its comment and the space around it.
abbrev pub stripped : Text → Text
stripped line = trim_space (cut b'#' line).0

-- Every entry that the scan holds satisfies the predicate.
abbrev pub AllEntries : (Kv → Type 0) → Scan → Type 0
AllEntries P s = All P s.iface × All (All P) s.peers × All P s.current

module _ (lower_other : ℕ → ℕ) where
  -- The entry is the key and the value of the line with its number, cut at the first `=`.
  abbrev pub IsAt : List Text → Kv → Type 0
  IsAt lines e =
      (before : List Text) × (line : Text) × (after : List Text) × (k : Text) × (v : Text) × (lines
        ≡ before ++ (line ∷ after))
      × (e.line ≡ suc (length before))
      × (cut b'=' (stripped line) ≡ (k, some v))
      × (e.key ≡ normalize_key lower_other k)
      × (e.value ≡ trim_space v)

  module _ (P : Kv → Type 0) where
    flush_peer-AllEntries :
        (at : Section) (s : Scan) → AllEntries P s → AllEntries P (flush_peer at s)
    unfolding flush_peer
    flush_peer-AllEntries no_section s h = (h.0, h.1, tt)
    flush_peer-AllEntries interface_section s h = (h.0, h.1, tt)
    flush_peer-AllEntries peer_section s h =
        (h.0, All-append (All P) s.peers (s.current ∷ []) h.1 (h.2, tt), tt)

    add_entry-AllEntries :
        (at : Section) (e : Kv) (s : Scan) → P e → AllEntries P s → AllEntries P (add_entry at e s)
    unfolding add_entry
    add_entry-AllEntries no_section e s p h =
        (h.0, h.1, All-append P s.current (e ∷ []) h.2 (p, tt))
    add_entry-AllEntries interface_section e s p h =
        (All-append P s.iface (e ∷ []) h.0 (p, tt), h.1, h.2)
    add_entry-AllEntries peer_section e s p h =
        (h.0, h.1, All-append P s.current (e ∷ []) h.2 (p, tt))

    -- What the line with the number `n` can add satisfies the predicate.
    abbrev Allows : ℕ → Text → Type 0
    Allows n line =
        (k v : Text)
        → cut b'=' line ≡ (k, some v)
        → P (record { key = normalize_key lower_other k; value = trim_space v; line = n })

    -- A scan that succeeds holds such entries only.
    abbrev AllOk : Result ScanError Scan → Type 0
    AllOk (err e) = Unit
    AllOk (ok s) = AllEntries P s

    if-AllOk :
        (b : Bool) (x y : Result ScanError Scan) → AllOk x → AllOk y → AllOk (if b then x else y)
    if-AllOk true x y p q = p
    if-AllOk false x y p q = q

    then-AllOk :
        (r : Result ScanError Scan) (next : Scan → Result ScanError Scan)
        → AllOk r
        → ((s : Scan) → AllEntries P s → AllOk (next s))
        → AllOk (r >>= next)
    then-AllOk (err e) next h f = tt
    then-AllOk (ok s) next h f = f s h

    enter-AllOk :
        (n : ℕ) (inside : Text) (s : Scan) → AllEntries P s → AllOk (enter lower_other n inside s)
    unfolding enter
    enter-AllOk n inside s h =
        let kept = flush_peer-AllEntries s.section s h in
        let name = normalize_key lower_other inside in
        let left = flush_peer s.section s in
        let to_peer : Result ScanError Scan = ok (record left { section = peer_section }) in
        let unknown : Result ScanError Scan = err (unknown_section n inside) in
        let is_peer = equal name (codes "peer") in
        if-AllOk (equal name (codes "interface")) (ok (record left { section = interface_section }))
          (if is_peer then to_peer else unknown) kept (if-AllOk is_peer to_peer unknown kept tt)

    add_line-AllOk :
        (n : ℕ) (line : Text) (s : Scan) (parts : Text × Option Text)
        → cut b'=' line ≡ parts
        → Allows n line
        → AllEntries P s
        → AllOk (add_line lower_other n parts s)
    unfolding add_line
    add_line-AllOk n line s (k, none) e p h = tt
    add_line-AllOk n line s (k, some v) e p h = add_entry-AllEntries s.section _ s (p k v e) h

    scan_content-AllOk :
        (n : ℕ) (line : Text) (inside : Option Text) (s : Scan)
        → Allows n line
        → AllEntries P s
        → AllOk (scan_content lower_other n line inside s)
    unfolding scan_content
    scan_content-AllOk n line (some inside) s p h = enter-AllOk n inside s h
    scan_content-AllOk n line none s p h =
        if-AllOk (not (in_section s.section)) (err (outside n))
          (add_line lower_other n (cut b'=' line) s) tt
          (add_line-AllOk n line s (cut b'=' line) refl p h)

    scan_line-AllOk :
        (n : ℕ) (line : Text) (s : Scan)
        → Allows n (stripped line)
        → AllEntries P s
        → AllOk (scan_line lower_other n line s)
    unfolding scan_line scan_stripped
    scan_line-AllOk n line s p h =
        if-AllOk (equal (stripped line) []) (ok s)
          (scan_content lower_other n (stripped line) (section_name (stripped line)) s) h
          (scan_content-AllOk n (stripped line) (section_name (stripped line)) s p h)

    -- The same of all lines from the number `n` on.
    abbrev AllowsAll : ℕ → List Text → Type 0
    AllowsAll n [] = Unit
    AllowsAll n (line ∷ lines) = Allows n (stripped line) × AllowsAll (suc n) lines

    scan_lines-AllOk :
        (n : ℕ) (lines : List Text) (s : Scan)
        → AllowsAll n lines
        → AllEntries P s
        → AllOk (scan_lines lower_other n lines s)
    unfolding scan_lines
    scan_lines-AllOk n [] s p h = h
    scan_lines-AllOk n (line ∷ lines) s p h =
        then-AllOk (scan_line lower_other n line s) (λ s'. scan_lines lower_other (suc n) lines s')
          (scan_line-AllOk n line s p.0 h) (λ s' h'. scan_lines-AllOk (suc n) lines s' p.1 h')

    with_interface-AllOk : (s : Scan) (es : List Kv) → AllEntries P s → AllOk (with_interface s es)
    unfolding with_interface
    with_interface-AllOk s [] h = tt
    with_interface-AllOk s (e ∷ es) h = h

    finish-AllOk : (s : Scan) → AllEntries P s → AllOk (finish s)
    unfolding finish
    finish-AllOk s h = with_interface-AllOk _ _ (flush_peer-AllEntries s.section s h)

  lines-AllowsAll :
      (whole before lines : List Text) (n : ℕ)
      → whole ≡ before ++ lines
      → n ≡ suc (length before)
      → AllowsAll (IsAt whole) n lines
  lines-AllowsAll whole before [] n e at = tt
  lines-AllowsAll whole before (line ∷ lines) n e at = (
    (λ k v parts. (before, line, lines, k, v, e, at, parts, refl, refl)),
    lines-AllowsAll whole (before ++ (line ∷ [])) lines (suc n)
        (e ∙ sym (append_assoc before (line ∷ []) lines))
        (omega (arith, at, length-append before (line ∷ []))),
  )

  -- Every entry of a configuration that is scanned, in the interface or in a peer, is the normalised key
  -- and the trimmed value of the line whose number it carries, without that line's comment and cut at the
  -- first `=`.
  pub scan_config-IsAt :
      (text : Text) (s : Scan)
      → scan_config lower_other text ≡ ok s
      → All (IsAt (split 10 text)) s.iface × All (All (IsAt (split 10 text))) s.peers
  unfolding scan_config
  scan_config-IsAt text s e =
      let whole = split 10 text in
      let kept = subst (AllOk (IsAt whole)) e (
        then-AllOk (IsAt whole) (scan_lines lower_other 1 whole empty_scan) (finish)
          (scan_lines-AllOk (IsAt whole) 1 whole empty_scan
            (lines-AllowsAll whole [] whole 1 refl refl) (tt, tt, tt))
          (finish-AllOk (IsAt whole))) in
      (kept.0, kept.1)
