-- ===== src/Awg/Stats.antt =====
-- internal/awg/stats.go: `parseUAPIGet`, line by line. The secret lines are passed over.
pub mod Secrets
use awgsocks.Base.{
  ℕ, zero, suc, ◌+◌, ◌-◌, ◌*◌, ◌^◌, Bool, true, false, not, ◌&&◌, ◌||◌, List, [], ◌∷◌, ◌++◌, Option,
  none, some, codes, ltb, leb, ◌==◌, if◌then◌else◌, Result, ok, err, ◌>>=◌, equal, ℤ, pos, negsuc,
}
use awgsocks.Strings.{Text, trim_space, cut, split}
use awgsocks.Config.Values.{decimal, negate}

-- `strconv.ParseInt(s, 10, 64)` without its error: 0 for a text that is no number, and the nearest
-- number for one that is out of range.
abbrev clamp_signed : Bool → ℕ → ℤ
clamp_signed true n = if leb (2 ^ 63) n then negsuc (2 ^ 63 - 1) else negate n
clamp_signed false n = if leb (2 ^ 63) n then pos (2 ^ 63 - 1) else pos n

signed : Bool → Option ℕ → ℤ
signed negative none = pos 0
signed negative (some n) = clamp_signed negative n

unfoldable pub parse_int : Text → ℤ
unfolding signed
parse_int [] = pos 0
parse_int (c ∷ s) =
    if c == b'-'
    then signed true (decimal s)
    else signed false (decimal (if c == b'+' then s else c ∷ s))

-- `strconv.ParseUint(s, 10, 64)` without its error.
unsigned : Option ℕ → ℕ
unsigned none = 0
unsigned (some n) = if ltb n (2 ^ 64) then n else 2 ^ 64 - 1

unfoldable pub parse_u64 : Text → ℕ
unfolding unsigned
parse_u64 s = unsigned (decimal s)

-- `time.Unix`, in nanoseconds since 1970; an instant before that counts as 1970.
unfoldable pub time_unix : ℤ → ℤ → ℕ
time_unix (pos s) (pos n) = s * 1000000000 + n
time_unix (pos s) (negsuc n) = s * 1000000000 - suc n
time_unix (negsuc s) (pos n) = n - suc s * 1000000000
time_unix (negsuc s) (negsuc n) = 0

-- `PeerStats`. Without a handshake its time is `none`.
pub record PeerStats : Type 0 where
  pub public_key : Text
  pub endpoint : Text
  pub last_handshake : Option ℕ
  pub tx_bytes : ℕ
  pub rx_bytes : ℕ
  pub persistent_keepalive : Text
  pub allowed_ips : List Text

-- `Stats`; the aggregated values are those of the first peer.
pub record Stats : Type 0 where
  pub listen_port : ℤ
  pub awg_params : List (Text × Text)
  pub peers : List PeerStats

-- The variables of `parseUAPIGet`.
pub record Reader : Type 0 where
  pub stats : Stats
  pub cur : Option PeerStats
  pub sec : ℤ
  pub nsec : ℤ

-- `secretUAPIKeys` and `awgUAPIKeys`.
abbrev pub secret_uapi_keys : List Text
secret_uapi_keys = codes "private_key" ∷ codes "preshared_key" ∷ codes "header_protection_key" ∷ []

abbrev pub awg_uapi_keys : List Text
awg_uapi_keys =
    codes "jc"
    ∷ codes "jmin"
    ∷ codes "jmax"
    ∷ codes "s1"
    ∷ codes "s2"
    ∷ codes "s3"
    ∷ codes "s4"
    ∷ codes "h1"
    ∷ codes "h2"
    ∷ codes "h3"
    ∷ codes "h4"
    ∷ codes "i1"
    ∷ codes "i2"
    ∷ codes "i3"
    ∷ codes "i4"
    ∷ codes "i5"
    ∷ codes "content_padding_addition"
    ∷ codes "rekey_after_time"
    ∷ codes "rekey_timeout"
    ∷ codes "reject_after_time"
    ∷ codes "keepalive_timeout"
    ∷ codes "max_handshake_attempts"
    ∷ codes "random_trailers"
    ∷ codes "disable_cookies"
    ∷ []

unfoldable pub is_in : Text → List Text → Bool
is_in key [] = false
is_in key (k ∷ ks) = equal k key || is_in key ks

abbrev pub positive : ℤ → Bool
positive (pos n) = ltb 0 n
positive (negsuc n) = false

abbrev handshake : ℤ → ℤ → Option ℕ → Option ℕ
handshake sec nsec old = if positive sec || positive nsec then some (time_unix sec nsec) else old

-- `flush`.
unfoldable pub flush_peer : Option PeerStats → Reader → Reader
flush_peer none r = r
flush_peer (some p) r =
    let done = record p { last_handshake = handshake r.sec r.nsec p.last_handshake } in
    record {
      stats = record r.stats { peers = r.stats.peers ++ (done ∷ []) };
      cur = none;
      sec = pos 0;
      nsec = pos 0;
    }

-- `s.AWGParams[key] = value`.
unfoldable pub put : Text → Text → List (Text × Text) → List (Text × Text)
put key value [] = (key, value) ∷ []
put key value ((k, v) ∷ rest) =
    let later = put key value rest in if equal k key then (k, value) ∷ rest else (k, v) ∷ later

-- `if cur != nil`.
on_peer : (PeerStats → PeerStats) → Option PeerStats → Reader → Reader
on_peer f none r = r
on_peer f (some p) r = record r { cur = some (f p) }

new_peer : Text → PeerStats
new_peer key = record {
  public_key = key;
  endpoint = [];
  last_handshake = none;
  tx_bytes = 0;
  rx_bytes = 0;
  persistent_keepalive = [];
  allowed_ips = [];
}

-- The switch on the key, without `errno`.
entry : Text → Text → Reader → Reader
unfolding on_peer new_peer flush_peer
entry key value r =
    if equal key (codes "listen_port")
    then record r { stats = record r.stats { listen_port = parse_int value } }
    else if equal key (codes "public_key")
    then record (flush_peer r.cur r) { cur = some (new_peer value) }
    else if equal key (codes "endpoint")
    then on_peer (λ p. record p { endpoint = value }) r.cur r
    else if equal key (codes "last_handshake_time_sec")
    then record r { sec = parse_int value }
    else if equal key (codes "last_handshake_time_nsec")
    then record r { nsec = parse_int value }
    else if equal key (codes "tx_bytes")
    then on_peer (λ p. record p { tx_bytes = parse_u64 value }) r.cur r
    else if equal key (codes "rx_bytes")
    then on_peer (λ p. record p { rx_bytes = parse_u64 value }) r.cur r
    else if equal key (codes "persistent_keepalive_interval")
    then on_peer (λ p. record p { persistent_keepalive = value }) r.cur r
    else if equal key (codes "allowed_ip")
    then on_peer (λ p. record p { allowed_ips = p.allowed_ips ++ (value ∷ []) }) r.cur r
    else if is_in key awg_uapi_keys
    then record r { stats = record r.stats { awg_params = put key value r.stats.awg_params } }
    else r

-- An error of the device, with its number.
pub data StatsError : Type 0 where
  uapi_error : Text → StatsError

key_value : Text × Option Text → Reader → Result StatsError Reader
unfolding entry
key_value (key, none) r = ok r
key_value (key, some value) r =
    if is_in key secret_uapi_keys
    then ok r
    else if equal key (codes "errno")
    then (if equal value (codes "0") then ok r else err (uapi_error value))
    else ok (entry key value r)

unfoldable pub parse_line : Text → Reader → Result StatsError Reader
unfolding key_value
parse_line line r =
    let stripped = trim_space line in
    if equal stripped [] then ok r else key_value (cut b'=' stripped) r

unfoldable pub parse_lines : List Text → Reader → Result StatsError Reader
parse_lines [] r = ok r
parse_lines (line ∷ lines) r = parse_line line r >>= (λ r'. parse_lines lines r')

abbrev pub first_reader : Reader
first_reader = record {
  stats = record { listen_port = pos 0; awg_params = []; peers = [] };
  cur = none;
  sec = pos 0;
  nsec = pos 0;
}

finished : Reader → Result StatsError Stats
finished r = ok (flush_peer r.cur r).stats

-- `parseUAPIGet`.
unfoldable pub parse_uapi_get : Text → Result StatsError Stats
unfolding finished flush_peer
parse_uapi_get raw = parse_lines (split 10 raw) first_reader >>= finished

-- The aggregated `LastHandshake`.
first_handshake : List PeerStats → Option ℕ
first_handshake [] = none
first_handshake (p ∷ ps) = p.last_handshake

unfoldable pub last_handshake : Stats → Option ℕ
unfolding first_handshake
last_handshake s = first_handshake s.peers
