-- ===== src/Tests/Settings.antt =====
-- The configuration reader of internal/config.
use awgsocks.Base.{
  ℕ, ◌<◌, ◌↔◌, ◌≡◌, refl, List, [], ◌∷◌, ◌++◌, codes, ok, Option, some, none, equal, Bytes, arith,
  if◌then◌else◌, All,
}
use awgsocks.Strings.{Text, split, cut, trim_space, to_lower, trim_left, contains, has_prefix}
use awgsocks.Config.Values.{range, parse_uint_range, parse_uint, digits_onto}
use awgsocks.Config.Mtu.{safe_mtu}
use awgsocks.Config.Scan.{
  Kv, Scan, peer_section, scan_config, scan_lines, scan_line, section_name, finish, flush_peer,
  add_entry,
}
use awgsocks.Netip.{Addr, v4}
use awgsocks.Config.Validate.{validate_scan, validate_value}
use awgsocks.Config.Checks.{
  validate_base64_key, validate_cidr_list, validate_endpoint, cut_last, byte_length, contains_any,
}
use awgsocks.Config.Params.{is_key, param}
use awgsocks.Config.Validate.Complete.{validate_scan-IsOk}
use awgsocks.Config.Validate.Distinct.{AreDistinct}
use awgsocks.Config.Validate.Strict.{IsOk, IsKnown, IsPeer, validate_scan-IsStrict}
use awgsocks.Config.Semantics.{
  get, num, junk_warnings, header_names, headers_of, header_warnings, validate_interface_semantics,
  verdict, junk_error, overlap_error, overlap_with, protection_error, prefix_error,
}
use awgsocks.Config.Semantics.Sound.{JunkIsSound, AllDisjoint, IsProtected, semantics_iff}

-- A table for letters beyond ASCII that has none.
abbrev same : ℕ → ℕ
same c = c

read_range : parse_uint_range 32 (codes " 5 - 10") ≡ range 5 10
unfolding parse_uint_range parse_uint digits_onto split trim_space trim_left
read_range = refl

above : safe_mtu 32 64 < 1325
unfolding safe_mtu
above = ground arith

abbrev text : Text
text = codes "[Interface] # mine\n Jc = 3 # few\n[Peer]\nEndpoint=h:1\n"

abbrev scanned : Scan
scanned = record {
  iface = record { key = codes "jc"; value = codes "3"; line = 2 } ∷ [];
  peers = (record { key = codes "endpoint"; value = codes "h:1"; line = 4 } ∷ []) ∷ [];
  section = peer_section;
  current = [];
}

scans : scan_config same text ≡ ok scanned
unfolding scan_config scan_lines scan_line split cut trim_space trim_left to_lower section_name
    finish flush_peer add_entry
scans = refl

abbrev junk_settings : List Kv
junk_settings =
    record { key = codes "jc"; value = codes "3"; line = 2 }
    ∷ record { key = codes "jmin"; value = codes "40"; line = 3 }
    ∷ record { key = codes "jmax"; value = codes "70"; line = 4 }
    ∷ record { key = codes "h1"; value = codes "5-9"; line = 5 }
    ∷ record { key = codes "h2"; value = codes "10"; line = 6 }
    ∷ []

semantics_iff_example :
    (validate_interface_semantics junk_settings
      ≡ ok (
          junk_warnings
            (num (codes "jc") junk_settings)
            (num (codes "jmin") junk_settings)
            (num (codes "jmax") junk_settings)
          ++ header_warnings (headers_of header_names junk_settings)))
    ↔ (JunkIsSound
          (num (codes "jc") junk_settings)
          (num (codes "jmin") junk_settings)
          (num (codes "jmax") junk_settings)
        × AllDisjoint (headers_of header_names junk_settings)
        × IsProtected junk_settings (get (codes "headerprotectionkey") junk_settings))
semantics_iff_example = semantics_iff junk_settings

-- A reader of addresses and of prefixes that knows one of each, and a decoder that knows one key.
abbrev one_addr : Text → Option Addr
one_addr t = if equal t (codes "10.0.0.2") then some (v4 (10 ∷ 0 ∷ 0 ∷ 2 ∷ [])) else none

abbrev one_prefix : Text → Option (Addr × ℕ)
one_prefix t = if equal t (codes "10.0.0.2/32") then some (v4 (10 ∷ 0 ∷ 0 ∷ 2 ∷ []), 32) else none

abbrev key_bytes : Bytes
key_bytes =
    1 ∷ 2 ∷ 3 ∷ 4 ∷ 5 ∷ 6 ∷ 7 ∷ 8 ∷ 1 ∷ 2 ∷ 3 ∷ 4 ∷ 5 ∷ 6 ∷ 7 ∷ 8 ∷ 1 ∷ 2 ∷ 3 ∷ 4 ∷ 5 ∷ 6 ∷ 7 ∷ 8
    ∷ 1 ∷ 2 ∷ 3 ∷ 4 ∷ 5 ∷ 6 ∷ 7 ∷ 8 ∷ []

abbrev one_key : Text → Option Bytes
one_key t = if equal t (codes "secret") then some key_bytes else none

abbrev settings : Scan
settings = record {
  iface =
      record { key = codes "privatekey"; value = codes "secret"; line = 2 }
      ∷ record { key = codes "address"; value = codes "10.0.0.2/32"; line = 3 }
      ∷ record { key = codes "h1"; value = codes "5-9"; line = 4 }
      ∷ record { key = codes "i1"; value = codes ""; line = 5 }
      ∷ [];
  peers =
      (record { key = codes "publickey"; value = codes "secret"; line = 7 }
        ∷ record { key = codes "endpoint"; value = codes "vpn.example:443"; line = 8 }
        ∷ [])
      ∷ [];
  section = peer_section;
  current = [];
}

accepts : IsOk (validate_scan same one_addr one_prefix one_key settings)
unfolding validate_scan validate_value validate_base64_key validate_cidr_list validate_endpoint
    cut_last byte_length contains_any contains has_prefix is_key param parse_uint_range parse_uint
    digits_onto split trim_space trim_left validate_interface_semantics verdict junk_error
    overlap_error overlap_with protection_error prefix_error get num headers_of junk_warnings
    header_warnings
accepts = tt

validate_scan-IsStrict_example :
    All (IsKnown same one_addr one_prefix one_key) settings.iface
    × AreDistinct settings.iface
    × IsOk (validate_interface_semantics settings.iface)
    × All (IsPeer same one_addr one_prefix one_key) settings.peers
validate_scan-IsStrict_example =
    validate_scan-IsStrict same one_addr one_prefix one_key settings accepts

validate_scan-IsOk_example : IsOk (validate_scan same one_addr one_prefix one_key settings)
validate_scan-IsOk_example =
    let strict = validate_scan-IsStrict same one_addr one_prefix one_key settings accepts in
    validate_scan-IsOk same one_addr one_prefix one_key settings strict.0 strict.1 strict.2 strict.3
