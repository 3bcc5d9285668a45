-- ===== src/Config/Scan.antt =====
-- internal/config/tunnel.go: `scanConfig`, on the lines of the configuration.
pub mod Lines
use awgsocks.Base.{
  ℕ, suc, Bool, true, false, not, ◌&&◌, List, [], ◌∷◌, ◌++◌, Option, none, some, codes, ◌==◌,
  if◌then◌else◌, Result, ok, err, ◌>>=◌, equal,
}
use awgsocks.Strings.{Text, to_lower, trim_space, cut, split}

-- `kv`.
pub record Kv : Type 0 where
  pub key : Text
  pub value : Text
  pub line : ℕ

pub data Section : Type 0 where
  no_section interface_section peer_section : Section

-- `configScan`, with the loop's `section` and `current`. `interfaceKeys` holds the keys of `iface`.
pub record Scan : Type 0 where
  pub iface : List Kv
  pub peers : List (List Kv)
  pub section : Section
  pub current : List Kv

pub data ScanError : Type 0 where
  unknown_section : ℕ → Text → ScanError
  outside : ℕ → ScanError
  no_separator : ℕ → ScanError
  no_interface : ScanError

-- `sectionRe`: the text in the brackets, of which the first is behind us.
unfoldable pub until_bracket : Text → Option Text
until_bracket [] = none
until_bracket (c ∷ []) = if c == b']' then some [] else none
until_bracket (c ∷ d ∷ s) = elim (until_bracket (d ∷ s)) [
  | none ↦ none
  | some inside ↦ some (c ∷ inside)
]

non_empty : Option Text → Option Text
non_empty none = none
non_empty (some []) = none
non_empty (some (c ∷ s)) = some (c ∷ s)

unfoldable pub section_name : Text → Option Text
unfolding until_bracket non_empty
section_name [] = none
section_name (c ∷ s) = if c == b'[' then non_empty (until_bracket s) else none

-- `flushPeer`, in the given section.
unfoldable pub flush_peer : Section → Scan → Scan
flush_peer no_section s = record s { current = [] }
flush_peer interface_section s = record s { current = [] }
flush_peer peer_section s = record s { peers = s.peers ++ (s.current ∷ []); current = [] }

unfoldable pub add_entry : Section → Kv → Scan → Scan
add_entry no_section e s = record s { current = s.current ++ (e ∷ []) }
add_entry interface_section e s = record s { iface = s.iface ++ (e ∷ []) }
add_entry peer_section e s = record s { current = s.current ++ (e ∷ []) }

in_section : Section → Bool
in_section no_section = false
in_section interface_section = true
in_section peer_section = true

-- What follows the loop.
with_interface : Scan → List Kv → Result ScanError Scan
with_interface s [] = err no_interface
with_interface s (e ∷ es) = ok s

unfoldable pub finish : Scan → Result ScanError Scan
unfolding flush_peer with_interface
finish s = let done = flush_peer s.section s in with_interface done done.iface

abbrev pub empty_scan : Scan
empty_scan = record { iface = []; peers = []; section = no_section; current = [] }

module _ (lower_other : ℕ → ℕ) where
  -- `normalizeKey`.
  abbrev pub normalize_key : Text → Text
  normalize_key k = to_lower lower_other (trim_space k)

  enter : ℕ → Text → Scan → Result ScanError Scan
  unfolding flush_peer
  enter n inside s =
      let name = normalize_key inside in
      if equal name (codes "interface")
      then ok (record (flush_peer s.section s) { section = interface_section })
      else if equal name (codes "peer")
      then ok (record (flush_peer s.section s) { section = peer_section })
      else err (unknown_section n inside)

  add_line : ℕ → Text × Option Text → Scan → Result ScanError Scan
  unfolding add_entry
  add_line n (key, none) s = err (no_separator n)
  add_line n (key, some value) s = ok (
      add_entry s.section (record { key = normalize_key key; value = trim_space value; line = n })
        s)

  -- A line that is not empty: a section's name in brackets, or an entry.
  scan_content : ℕ → Text → Option Text → Scan → Result ScanError Scan
  unfolding enter add_line in_section
  scan_content n line (some inside) s = enter n inside s
  scan_content n line none s =
      if not (in_section s.section) then err (outside n) else add_line n (cut b'=' line) s

  -- The body of the loop, behind the removal of the comment and the space around the line.
  scan_stripped : ℕ → Text → Scan → Result ScanError Scan
  unfolding scan_content
  scan_stripped n line s = if equal line [] then ok s else scan_content n line (section_name line) s

  -- The body of the loop.
  unfoldable pub scan_line : ℕ → Text → Scan → Result ScanError Scan
  unfolding scan_stripped
  scan_line n line s = scan_stripped n (trim_space (cut b'#' line).0) s

  -- The loop, from the line with the number `n` on.
  unfoldable pub scan_lines : ℕ → List Text → Scan → Result ScanError Scan
  scan_lines n [] s = ok s
  scan_lines n (line ∷ lines) s = scan_line n line s >>= (λ s'. scan_lines (suc n) lines s')

  -- `scanConfig`.
  unfoldable pub scan_config : Text → Result ScanError Scan
  unfolding finish
  scan_config text = scan_lines 1 (split 10 text) empty_scan >>= finish
