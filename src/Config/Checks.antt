-- ===== src/Config/Checks.antt =====
-- internal/config/tunnel.go: the checks of single values. `netip.ParseAddr`, `netip.ParsePrefix` and
-- the base64 decoder are parameters; the decoder is all of internal/config/base64.go.
use awgsocks.Base.{
  ℕ, ◌+◌, Bool, false, ◌&&◌, ◌||◌, List, [], ◌∷◌, Option, none, some, codes, Bytes, length, ltb,
  ◌==◌, if◌then◌else◌, equal,
}
use awgsocks.Strings.{Text, trim_space, split, contains}
use awgsocks.Netip.{Addr, is4}
use awgsocks.Config.Scan.{until_bracket}
use awgsocks.Config.Values.{parse_uint}

pub data ValueError : Type 0 where
  not_base64 bad_key_length : ValueError
  empty_element bad_cidr bad_prefix_length bad_ip bad_dns_entry : ValueError
  no_port bad_port empty_host no_closing_bracket bad_ipv6 unbracketed bad_host : ValueError
  bad_uint16 bad_range bad_bool bad_keepalive bad_mtu unsupported_table : ValueError

-- The text before the last `sep`, and the text behind it.
unfoldable pub cut_last : ℕ → Text → Option (Text × Text)
cut_last sep [] = none
cut_last sep (c ∷ s) = elim (cut_last sep s) [
  | some (before, after) ↦ some (c ∷ before, after)
  | none ↦ if c == sep then some ([], s) else none
]

-- `strings.ContainsAny`.
unfoldable pub contains_any : Text → Text → Bool
contains_any [] chars = false
contains_any (c ∷ s) chars = contains chars (c ∷ []) || contains_any s chars

-- `len` of a string: its bytes in UTF-8.
abbrev rune_size : ℕ → ℕ
rune_size c = if ltb c 128 then 1 else if ltb c 2048 then 2 else if ltb c 65536 then 3 else 4

unfoldable pub byte_length : Text → ℕ
byte_length [] = 0
byte_length (c ∷ s) = rune_size c + byte_length s

module _ (parse_addr : Text → Option Addr) where
  -- One element of a DNS list; an entry that is no address is a search domain.
  dns_part : Text → Option ValueError
  dns_part part = if equal part [] then some empty_element else elim (parse_addr part) [
    | some a ↦ none
    | none ↦ if contains_any part (32 ∷ 9 ∷ []) then some bad_dns_entry else none
  ]

  dns_parts : List Text → Option ValueError
  unfolding dns_part
  dns_parts [] = none
  dns_parts (part ∷ parts) =
      let later = dns_parts parts in
      elim (dns_part (trim_space part)) [ some e ↦ some e | none ↦ later ]

  -- `validateDNSList`.
  unfoldable pub validate_dns_list : Text → Option ValueError
  unfolding dns_parts
  validate_dns_list s = dns_parts (split b',' s)

  -- The address in brackets, without its zone.
  without_zone : Text → Option (Text × Text) → Text
  without_zone inner none = inner
  without_zone inner (some ([], zone)) = inner
  without_zone inner (some (c ∷ before, zone)) = c ∷ before

  bracketed : Option Text → Option ValueError
  unfolding without_zone
  bracketed none = some no_closing_bracket
  bracketed (some inner) = elim (parse_addr (without_zone inner (cut_last b'%' inner))) [
    | none ↦ some bad_ipv6
    | some a ↦ none
  ]

  host_error : Text → Option ValueError
  unfolding bracketed
  host_error [] = some empty_host
  host_error (c ∷ s) =
      if c == b'['
      then bracketed (until_bracket s)
      else if contains (c ∷ s) (codes ":")
      then some unbracketed
      else elim (parse_addr (c ∷ s)) [
        | some a ↦ none
        | none ↦
            if ltb 253 (byte_length (c ∷ s)) || contains_any (c ∷ s) (32 ∷ 9 ∷ b'/' ∷ b'\\' ∷ [])
            then some bad_host
            else none
      ]

  endpoint_error : Option (Text × Text) → Option ValueError
  unfolding host_error
  endpoint_error none = some no_port
  endpoint_error (some (host, port)) = elim (parse_uint 16 port) [
    | none ↦ some bad_port
    | some n ↦ if n == 0 then some bad_port else host_error host
  ]

  -- `validateEndpoint`.
  unfoldable pub validate_endpoint : Text → Option ValueError
  unfolding endpoint_error
  validate_endpoint s = endpoint_error (cut_last b':' s)

  module _ (parse_prefix : Text → Option (Addr × ℕ)) where
    prefix_error_of : Option (Addr × ℕ) → Option ValueError
    prefix_error_of none = some bad_cidr
    prefix_error_of (some (a, bits)) = if is4 a && ltb 32 bits then some bad_prefix_length else none

    cidr_part : Text → Option ValueError
    unfolding prefix_error_of
    cidr_part part =
        if equal part []
        then some empty_element
        else if contains part (codes "/")
        then prefix_error_of (parse_prefix part)
        else elim (parse_addr part) [ none ↦ some bad_ip | some a ↦ none ]

    cidr_parts : List Text → Option ValueError
    unfolding cidr_part
    cidr_parts [] = none
    cidr_parts (part ∷ parts) =
        let later = cidr_parts parts in
        elim (cidr_part (trim_space part)) [ some e ↦ some e | none ↦ later ]

    -- `validateCIDRList`.
    unfoldable pub validate_cidr_list : Text → Option ValueError
    unfolding cidr_parts
    validate_cidr_list s = cidr_parts (split b',' s)

-- `validateBase64Key`.
unfoldable pub validate_base64_key : (Text → Option Bytes) → Text → Option ValueError
validate_base64_key decode s = elim (decode s) [
  | none ↦ some not_base64
  | some decoded ↦ if length decoded == 32 then none else some bad_key_length
]
