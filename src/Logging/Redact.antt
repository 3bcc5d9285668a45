-- ===== src/Logging/Redact.antt =====
-- internal/logging/redact.go: `Redact` and `RedactUAPI`. Each regular expression is a test at a position
-- and a pass from left to right. A pass is told how many bytes are left of the match that it is in,
-- and whether the byte before this one belongs to a word; a line is a list of bytes.
pub mod Keys
pub mod Hex
pub mod Clean
use awgsocks.Base.{
  ℕ, zero, suc, ◌+◌, ◌-◌, Bool, true, false, not, ◌&&◌, ◌||◌, List, [], ◌∷◌, ◌++◌, Option, none,
  some, Bytes, length, take, drop, codes, ◌==◌, equal, if◌then◌else◌,
}
use awgsocks.Strings.{Text, in_range, to_lower, trim_space, cut, split, has_prefix}
use mathlib.Core.List.{reverse}

-- `redacted`.
abbrev pub redacted : Bytes
redacted = codes "[REDACTED]"

-- `\w`; `\b` stands where this changes.
abbrev pub is_word : ℕ → Bool
is_word c = in_range b'a' b'z' c || in_range b'A' b'Z' c || in_range b'0' b'9' c || c == b'_'

abbrev pub is_hex : ℕ → Bool
is_hex c = in_range b'0' b'9' c || in_range b'a' b'f' c || in_range b'A' b'F' c

abbrev pub is_base64 : ℕ → Bool
is_base64 c =
    in_range b'A' b'Z' c || in_range b'a' b'z' c || in_range b'0' b'9' c || c == b'+' || c == b'/'

-- `\b` before this byte.
abbrev pub at_boundary : Bool → ℕ → Bool
at_boundary before c = if before then not (is_word c) else is_word c

-- The end of the text, or a `\b` behind a byte of a word.
abbrev pub word_ends : Bytes → Bool
word_ends [] = true
word_ends (c ∷ s) = not (is_word c)

-- `[0-9a-fA-F]{n}\b`.
unfoldable pub hex_ahead : ℕ → Bytes → Bool
hex_ahead zero s = word_ends s
hex_ahead (suc n) [] = false
hex_ahead (suc n) (c ∷ s) = is_hex c && hex_ahead n s

-- `[A-Za-z0-9+/]{n}=`.
unfoldable pub base64_ahead : ℕ → Bytes → Bool
base64_ahead zero [] = false
base64_ahead zero (c ∷ s) = c == b'='
base64_ahead (suc n) [] = false
base64_ahead (suc n) (c ∷ s) = is_base64 c && base64_ahead n s

-- `reHexKey` at a byte.
abbrev pub hex_key_at : Bool → ℕ → Bytes → Bool
hex_key_at before c s = at_boundary before c && hex_ahead 64 (c ∷ s)

-- `reBase64Key` at a byte.
abbrev pub base64_key_at : Bool → ℕ → Bytes → Bool
base64_key_at before c s = at_boundary before c && base64_ahead 43 (c ∷ s)

-- `reHexKey.ReplaceAllString`.
unfoldable pub hex_pass : ℕ → Bool → Bytes → Bytes
hex_pass skip before [] = []
hex_pass (suc skip) before (c ∷ s) = hex_pass skip (is_word c) s
hex_pass zero before (c ∷ s) = elim (hex_key_at before c s) [
  | true ↦ redacted ++ hex_pass 63 (is_word c) s
  | false ↦ c ∷ hex_pass zero (is_word c) s
]

-- `reBase64Key.ReplaceAllString`.
unfoldable pub base64_pass : ℕ → Bool → Bytes → Bytes
base64_pass skip before [] = []
base64_pass (suc skip) before (c ∷ s) = base64_pass skip (is_word c) s
base64_pass zero before (c ∷ s) = elim (base64_key_at before c s) [
  | true ↦ redacted ++ base64_pass 43 (is_word c) s
  | false ↦ c ∷ base64_pass zero (is_word c) s
]

-- `\s`.
abbrev pub is_blank : ℕ → Bool
is_blank c = c == 9 || c == 10 || c == 12 || c == 13 || c == 32

-- One letter under `(?i)`. Besides its capital, `k` stands for the Kelvin sign and `s` for the long s.
unfoldable pub letter : ℕ → Bytes → Option Bytes
letter l [] = none
letter l (c ∷ s) =
    if c == l || c + 32 == l && in_range b'A' b'Z' c
    then some s
    else if l == b'k' && has_prefix (c ∷ s) (0xE2 ∷ 0x84 ∷ 0xAA ∷ [])
    then some (drop 2 s)
    else if l == b's' && has_prefix (c ∷ s) (0xC5 ∷ 0xBF ∷ [])
    then some (drop 1 s)
    else none

infixl 5 ◌>>=?◌
abbrev pub ◌>>=?◌ {ℓ} : {A : Type ℓ} → Option Bytes → (Bytes → Option A) → Option A
none >>=? next = none
some r >>=? next = next r

-- A word of the label, and what is behind it.
unfoldable pub word_ahead : Bytes → Bytes → Option Bytes
word_ahead [] s = some s
word_ahead (l ∷ ls) s = letter l s >>=? word_ahead ls

-- `[_ ]?`.
unfoldable pub skip_joint : Bytes → Bytes
skip_joint [] = []
skip_joint (c ∷ s) = if c == b'_' || c == b' ' then s else c ∷ s

unfoldable pub key_ahead : Bytes → Option Bytes
key_ahead s = word_ahead (codes "key") (skip_joint s)

unfoldable pub or_else : Option Bytes → Option Bytes → Option Bytes
or_else none o = o
or_else (some r) o = some r

-- The labels; those written without a joint are among them.
unfoldable pub label_ahead : Bytes → Option Bytes
label_ahead s = or_else (word_ahead (codes "private") s >>=? key_ahead) (
    or_else (word_ahead (codes "preshared") s >>=? key_ahead) (
      word_ahead (codes "header") s
      >>=? (λ r. word_ahead (codes "protection") (skip_joint r))
      >>=? key_ahead))

-- `\s*`.
unfoldable pub skip_blanks : Bytes → Bytes
skip_blanks [] = []
skip_blanks (c ∷ s) = if is_blank c then skip_blanks s else c ∷ s

-- `\S*`.
unfoldable pub skip_value : Bytes → Bytes
skip_value [] = []
skip_value (c ∷ s) = if is_blank c then c ∷ s else skip_value s

-- `[=:]`.
unfoldable pub separator : Bytes → Option Bytes
separator [] = none
separator (c ∷ s) = if c == b'=' || c == b':' then some s else none

-- `\S+`.
unfoldable pub value_ahead : Bytes → Option Bytes
value_ahead [] = none
value_ahead (c ∷ s) = if is_blank c then none else some (skip_value s)

abbrev pub with_lengths : Bytes → Bytes → Option Bytes → Option (ℕ × ℕ)
with_lengths s v none = none
with_lengths s v (some r) = some (length s - length v, length s - length r)

-- `reSecretAssign`: the length of the match up to its separator, and its whole length.
unfoldable pub assign_ahead : Bytes → Option (ℕ × ℕ)
assign_ahead s =
    label_ahead s
    >>=? (λ r. separator (skip_blanks r))
    >>=? (λ v. with_lengths s v (value_ahead (skip_blanks v)))

abbrev pub secret_assign_at : Bool → ℕ → Bytes → Option (ℕ × ℕ)
secret_assign_at before c s = if at_boundary before c then assign_ahead (c ∷ s) else none

-- `reSecretAssign.ReplaceAllStringFunc`: the text up to the first `=` or `:` stays.
unfoldable pub assign_pass : ℕ → Bool → Bytes → Bytes
assign_pass skip before [] = []
assign_pass (suc skip) before (c ∷ s) = assign_pass skip (is_word c) s
assign_pass zero before (c ∷ s) = elim (secret_assign_at before c s) [
  | some (kept, whole) ↦ take kept (c ∷ s) ++ (redacted ++ assign_pass (whole - 1) (is_word c) s)
  | none ↦ c ∷ assign_pass zero (is_word c) s
]

-- `Redact`.
unfoldable pub redact : Bytes → Bytes
redact s = base64_pass 0 false (hex_pass 0 false (assign_pass 0 false s))

-- `strings.TrimRight` of line feeds.
skip_newlines : Text → Text
skip_newlines [] = []
skip_newlines (c ∷ s) = if c == 10 then skip_newlines s else c ∷ s

unfoldable pub trim_right_newlines : Text → Text
unfolding skip_newlines
trim_right_newlines s = reverse (skip_newlines (reverse s))

-- `RedactUAPI`, with its test on the key. Text is code points here.
module _ (lower_other : ℕ → ℕ) where
  unfoldable pub is_secret_key : Text → Bool
  is_secret_key key =
      let name = to_lower lower_other (trim_space key) in
      equal name (codes "private_key")
      || equal name (codes "preshared_key")
      || equal name (codes "header_protection_key")

  -- What is written of a line, cut at its first `=`.
  unfoldable pub written_as : Text → Text × Option Text → Text
  written_as line (key, none) = line
  written_as line (key, some value) = if is_secret_key key then key ++ (b'=' ∷ redacted) else line

  unfoldable pub written_lines : List Text → Text
  written_lines [] = []
  written_lines (line ∷ lines) = written_as line (cut b'=' line) ++ (10 ∷ written_lines lines)

  unfoldable pub redact_uapi : Text → Text
  redact_uapi uapi = trim_right_newlines (written_lines (split 10 uapi))
