-- ===== src/Config/Params.antt =====
-- internal/config/params.go: the tables of the parameters.
use awgsocks.Base.{
  Bool, true, false, ◌||◌, List, [], ◌∷◌, Option, none, some, codes, if◌then◌else◌, equal,
}
use awgsocks.Strings.{Text}

-- `paramKind`.
pub data ParamKind : Type 0 where
  kind_other kind_uint16 kind_range_u32 kind_range_u16 kind_bool kind_key_base64 kind_obf_chain :
      ParamKind

-- `supportedParam`.
pub record SupportedParam : Type 0 where
  pub kind : ParamKind
  pub awg : Bool

abbrev plain : Text → ParamKind → Text × SupportedParam
plain key kind = (key, record { kind = kind; awg = false })

abbrev special : Text → ParamKind → Text × SupportedParam
special key kind = (key, record { kind = kind; awg = true })

-- `interfaceParams`.
abbrev pub interface_params : List (Text × SupportedParam)
interface_params =
    plain (codes "privatekey") kind_key_base64
    ∷ plain (codes "listenport") kind_uint16
    ∷ plain (codes "mtu") kind_other
    ∷ plain (codes "address") kind_other
    ∷ plain (codes "dns") kind_other
    ∷ plain (codes "table") kind_other
    ∷ special (codes "jc") kind_uint16
    ∷ special (codes "jmin") kind_uint16
    ∷ special (codes "jmax") kind_uint16
    ∷ special (codes "s1") kind_uint16
    ∷ special (codes "s2") kind_uint16
    ∷ special (codes "s3") kind_uint16
    ∷ special (codes "s4") kind_uint16
    ∷ special (codes "h1") kind_range_u32
    ∷ special (codes "h2") kind_range_u32
    ∷ special (codes "h3") kind_range_u32
    ∷ special (codes "h4") kind_range_u32
    ∷ special (codes "i1") kind_obf_chain
    ∷ special (codes "i2") kind_obf_chain
    ∷ special (codes "i3") kind_obf_chain
    ∷ special (codes "i4") kind_obf_chain
    ∷ special (codes "i5") kind_obf_chain
    ∷ special (codes "headerprotectionkey") kind_key_base64
    ∷ special (codes "contentpaddingaddition") kind_range_u16
    ∷ special (codes "rekeyaftertime") kind_range_u16
    ∷ special (codes "rekeytimeout") kind_range_u16
    ∷ special (codes "rejectaftertime") kind_range_u16
    ∷ special (codes "keepalivetimeout") kind_range_u16
    ∷ special (codes "maxhandshakeattempts") kind_range_u16
    ∷ special (codes "randomtrailers") kind_bool
    ∷ special (codes "disablecookies") kind_bool
    ∷ []

-- `peerParams`.
abbrev pub peer_params : List (Text × SupportedParam)
peer_params =
    plain (codes "publickey") kind_key_base64
    ∷ plain (codes "presharedkey") kind_key_base64
    ∷ plain (codes "allowedips") kind_other
    ∷ plain (codes "persistentkeepalive") kind_other
    ∷ plain (codes "endpoint") kind_other
    ∷ []

-- `scriptHookKeys`.
abbrev pub script_hook_keys : List Text
script_hook_keys = codes "preup" ∷ codes "postup" ∷ codes "predown" ∷ codes "postdown" ∷ []

-- `emptyValueAllowed`.
abbrev pub empty_value_allowed : List Text
empty_value_allowed =
    codes "i1"
    ∷ codes "i2"
    ∷ codes "i3"
    ∷ codes "i4"
    ∷ codes "i5"
    ∷ codes "headerprotectionkey"
    ∷ codes "contentpaddingaddition"
    ∷ codes "rekeyaftertime"
    ∷ codes "rekeytimeout"
    ∷ codes "rejectaftertime"
    ∷ codes "keepalivetimeout"
    ∷ codes "maxhandshakeattempts"
    ∷ codes "randomtrailers"
    ∷ codes "disablecookies"
    ∷ []

-- A look into a table, and into a set.
unfoldable pub param : Text → List (Text × SupportedParam) → Option SupportedParam
param key [] = none
param key ((k, p) ∷ rest) = if equal k key then some p else param key rest

unfoldable pub is_key : Text → List Text → Bool
is_key key [] = false
is_key key (k ∷ ks) = equal k key || is_key key ks
