-- ===== src/Config/Validate.antt =====
-- internal/config/tunnel.go: `validateValue` and `validateScan`.
pub mod Distinct
pub mod Strict
pub mod Complete
use awgsocks.Base.{
  ℕ, ◌^◌, Bool, true, false, not, ◌&&◌, ◌||◌, List, [], ◌∷◌, ◌++◌, map, Option, none, some, codes,
  Bytes, ltb, leb, ◌==◌, if◌then◌else◌, Result, ok, err, ◌>>=◌, equal, ℤ, pos, negsuc,
}
use awgsocks.Strings.{Text, to_lower}
use awgsocks.Netip.{Addr}
use awgsocks.Config.Scan.{Kv, Scan}
use awgsocks.Config.Semantics.{Warning, SemanticsError, validate_interface_semantics}
use awgsocks.Config.Values.{
  RangeResult, range, no_range, parse_uint, atoi, parse_uint_range, parse_awg_bool,
}
use awgsocks.Config.Params.{
  SupportedParam, ParamKind, kind_other, kind_uint16, kind_range_u32, kind_range_u16, kind_bool,
  kind_key_base64, kind_obf_chain, interface_params, peer_params, script_hook_keys,
  empty_value_allowed, param, is_key,
}
use awgsocks.Config.Checks.{
  ValueError, bad_uint16, bad_range, bad_bool, bad_keepalive, bad_mtu, unsupported_table,
  validate_dns_list, validate_endpoint, validate_cidr_list, validate_base64_key,
}

pub data ScanWarning : Type 0 where
  above_uint16 : ℕ → ScanWarning
  semantic : Warning → ScanWarning

pub data PolicyError : Type 0 where
  script_hook unsupported duplicate no_value : Kv → PolicyError
  bad_value : Kv → ValueError → PolicyError
  bad_semantics : SemanticsError → PolicyError

abbrev max_uint16 : ℕ
max_uint16 = 65535

fails : Kv → Option ValueError → Result PolicyError (List ScanWarning)
fails e none = ok []
fails e (some why) = err (bad_value e why)

uint16_value : Option ℕ → Option ValueError
uint16_value none = some bad_uint16
uint16_value (some n) = if ltb max_uint16 n then some bad_uint16 else none

range_value : RangeResult → Option ValueError
range_value (range lo hi) = none
range_value (no_range why) = some bad_range

wide_range : Kv → RangeResult → Result PolicyError (List ScanWarning)
wide_range e (range lo hi) =
    ok (if ltb max_uint16 hi || ltb max_uint16 lo then above_uint16 e.line ∷ [] else [])
wide_range e (no_range why) = err (bad_value e bad_range)

bool_value : Option Bool → Option ValueError
bool_value none = some bad_bool
bool_value (some b) = none

keepalive_value : Option ℕ → Option ValueError
keepalive_value none = some bad_keepalive
keepalive_value (some n) = if ltb 65535 n then some bad_keepalive else none

mtu_value : Option ℤ → Option ValueError
mtu_value none = some bad_mtu
mtu_value (some (pos n)) = if ltb n 576 || ltb 65535 n then some bad_mtu else none
mtu_value (some (negsuc n)) = some bad_mtu

semantics_of : Result SemanticsError (List Warning) → Result PolicyError (List ScanWarning)
semantics_of (err e) = err (bad_semantics e)
semantics_of (ok ws) = ok (map semantic ws)

module _ (lower_other : ℕ → ℕ) (parse_addr : Text → Option Addr)
    (parse_prefix : Text → Option (Addr × ℕ)) (decode : Text → Option Bytes) where
  -- The switch on the key of a value with no kind of its own.
  other_value : Kv → Option ValueError
  unfolding keepalive_value mtu_value
  other_value e =
      if equal e.key (codes "address")
      then validate_cidr_list parse_addr parse_prefix e.value
      else if equal e.key (codes "allowedips")
      then validate_cidr_list parse_addr parse_prefix e.value
      else if equal e.key (codes "dns")
      then validate_dns_list parse_addr e.value
      else if equal e.key (codes "endpoint")
      then validate_endpoint parse_addr e.value
      else if equal e.key (codes "persistentkeepalive")
      then (if equal e.value (codes "off") || equal e.value (codes "(off)")
          then none
          else keepalive_value (parse_uint 64 e.value))
      else if equal e.key (codes "mtu")
      then mtu_value (atoi e.value)
      else if equal e.key (codes "table")
      then (if equal (to_lower lower_other e.value) (codes "off")
          then none
          else some unsupported_table)
      else none

  value_of_kind : ParamKind → Kv → Result PolicyError (List ScanWarning)
  unfolding fails uint16_value range_value wide_range bool_value other_value
  value_of_kind kind_uint16 e = fails e (uint16_value (parse_uint 64 e.value))
  value_of_kind kind_range_u32 e = fails e (range_value (parse_uint_range 32 e.value))
  value_of_kind kind_range_u16 e = wide_range e (parse_uint_range 32 e.value)
  value_of_kind kind_bool e = fails e (bool_value (parse_awg_bool lower_other e.value))
  value_of_kind kind_key_base64 e = fails e (validate_base64_key decode e.value)
  value_of_kind kind_obf_chain e = ok []
  value_of_kind kind_other e = fails e (other_value e)

  -- `validateValue`.
  unfoldable pub validate_value : Kv → SupportedParam → Result PolicyError (List ScanWarning)
  unfolding value_of_kind
  validate_value e p = value_of_kind p.kind e

  known_value : Kv → SupportedParam → Result PolicyError (List ScanWarning)
  known_value e p =
      if equal e.value []
      then (if is_key e.key empty_value_allowed then ok [] else err (no_value e))
      else validate_value e p

  -- One round of the loop over the interface, behind the look for the key.
  known_entry : List Text → Kv → Option SupportedParam → Result PolicyError (List ScanWarning)
  unfolding known_value
  known_entry seen e none = err (unsupported e)
  known_entry seen e (some p) = if is_key e.key seen then err (duplicate e) else known_value e p

  interface_entry : List Text → Kv → Result PolicyError (List ScanWarning)
  unfolding known_entry
  interface_entry seen e =
      if is_key e.key script_hook_keys
      then err (script_hook e)
      else known_entry seen e (param e.key interface_params)

  -- The loop over the interface; `seen` are the keys before.
  interface_entries : List Text → List Kv → Result PolicyError (List ScanWarning)
  unfolding interface_entry
  interface_entries seen [] = ok []
  interface_entries seen (e ∷ es) =
      interface_entry seen e >>= (λ w. interface_entries (e.key ∷ seen) es >>= (λ ws. ok (w ++ ws)))

  peer_entry : List Text → Kv → Option SupportedParam → Result PolicyError (List ScanWarning)
  peer_entry seen e none = err (unsupported e)
  peer_entry seen e (some p) =
      if is_key e.key seen
      then err (duplicate e)
      else if equal e.value []
      then err (no_value e)
      else validate_value e p

  -- The loop over one peer, whose warnings are not kept.
  peer_entries : List Text → List Kv → Result PolicyError (List ScanWarning)
  unfolding peer_entry
  peer_entries seen [] = ok []
  peer_entries seen (e ∷ es) =
      peer_entry seen e (param e.key peer_params) >>= (λ w. peer_entries (e.key ∷ seen) es)

  all_peers : List (List Kv) → Result PolicyError (List ScanWarning)
  unfolding peer_entries
  all_peers [] = ok []
  all_peers (peer ∷ peers) = peer_entries [] peer >>= (λ w. all_peers peers)

  -- `validateScan`.
  unfoldable pub validate_scan : Scan → Result PolicyError (List ScanWarning)
  unfolding interface_entries semantics_of all_peers
  validate_scan s = interface_entries [] s.iface >>= (λ w.
      semantics_of (validate_interface_semantics s.iface)
      >>= (λ w'. all_peers s.peers >>= (λ none_kept. ok (w ++ w'))))
