-- ===== src/Config/App.antt =====
-- internal/config/app.go: `App`, `Normalize`, `ValidateLoopbackListen` and the defaults. `filepath.Abs`,
-- `netip.ParseAddrPort`, `netip.ParseAddr` and `Addr.String` are parameters, as is the path of the
-- tunnel configuration.
pub mod Ready
use awgsocks.Base.{
  ℕ, Bool, true, false, not, ◌&&◌, ◌||◌, List, [], ◌∷◌, Option, none, some, codes, ◌==◌,
  if◌then◌else◌, Result, ok, err, ◌>>=◌, equal, ℤ, pos, negsuc,
}
use awgsocks.Strings.{Text, trim_space, to_lower}
use awgsocks.Netip.{Addr, AddrPort, is_loopback}

-- `App`, without the path that it was read from.
pub record App : Type 0 where
  pub config_path : Text
  pub socks5_listen : Text
  pub auto_start : Bool
  pub log_level : Text
  pub max_connections : ℤ
  pub log_max_size_mb : ℤ
  pub log_max_files : ℤ
  pub udp_associate : Option Bool
  pub udp_bind : Text

abbrev pub default_socks_listen : Text
default_socks_listen = codes "127.0.0.1:10808"

abbrev pub default_log_level : Text
default_log_level = codes "info"

abbrev pub default_udp_bind : Text
default_udp_bind = codes "std"

-- `DefaultApp`; the argument is `TunnelConfigPath()`.
unfoldable pub default_app : Text → App
default_app path = record {
  config_path = path;
  socks5_listen = default_socks_listen;
  auto_start = true;
  log_level = default_log_level;
  max_connections = pos 0;
  log_max_size_mb = pos 0;
  log_max_files = pos 0;
  udp_associate = some true;
  udp_bind = default_udp_bind;
}

-- The errors, by the part that is wrong.
pub data AppError : Type 0 where
  bad_path bad_listen zero_port bad_host exposed bad_log_level bad_udp_bind bad_limit
        bad_log_limit :
      AppError

abbrev pub is_negative : ℤ → Bool
is_negative (pos n) = false
is_negative (negsuc n) = true

abbrev pub is_blank : Text → Bool
is_blank s = equal (trim_space s) []

-- The words that the switches know.
abbrev pub is_level : Text → Bool
is_level s =
    equal s (codes "debug")
    || equal s (codes "info")
    || equal s (codes "warn")
    || equal s (codes "warning")
    || equal s (codes "error")

abbrev pub is_bind : Text → Bool
is_bind s = equal s (codes "std") || equal s (codes "rio")

-- `UDPEnabled`.
unfoldable pub udp_enabled : App → Bool
udp_enabled a = elim a.udp_associate [ none ↦ true | some b ↦ b ]

pub record Platform : Type 0 where
  pub lower_other : ℕ → ℕ
  pub tunnel_config_path : Text
  pub abs : Text → Option Text
  pub parse_addr_port : Text → Option AddrPort
  pub parse_addr : Text → Option Addr
  pub addr_text : Addr → Text

module _ (w : Platform) where
  -- `ValidateLoopbackListen`, behind `splitHostPort`.
  host_checked : Option Addr → Result AppError (Unit {0})
  host_checked none = err bad_host
  host_checked (some ip) = if not (is_loopback ip) then err exposed else ok tt

  pub listen_checked : Option AddrPort → Result AppError (Unit {0})
  unfolding host_checked
  listen_checked none = err bad_listen
  listen_checked (some ap) =
      if ap.port == 0 then err zero_port else host_checked (w.parse_addr (w.addr_text ap.addr))

  unfoldable pub validate_loopback_listen : Text → Result AppError (Unit {0})
  unfolding listen_checked
  validate_loopback_listen addr = listen_checked (w.parse_addr_port addr)

  -- The path, and the address to listen on.
  path_made : Option Text → App → Result AppError App
  path_made none a = err bad_path
  path_made (some abs) a = ok (record a { config_path = abs })

  pub with_path : App → Result AppError App
  unfolding path_made
  with_path a =
      path_made (w.abs (if is_blank a.config_path then w.tunnel_config_path else a.config_path)) a

  pub with_listen : App → Result AppError App
  with_listen a =
      let listen = if is_blank a.socks5_listen then default_socks_listen else a.socks5_listen in
      validate_loopback_listen listen >>= (λ valid. ok (record a { socks5_listen = listen }))

  pub with_level : App → Result AppError App
  with_level a =
      let level = if is_blank a.log_level then default_log_level else a.log_level in
      if is_level (to_lower w.lower_other level)
      then ok (record a { log_level = level })
      else err bad_log_level

  -- `UDPAssociate`, `UDPBind` and the limits.
  pub with_bind : App → Result AppError App
  with_bind a =
      let bind = to_lower w.lower_other (trim_space a.udp_bind) in
      if equal bind []
      then ok (record a { udp_associate = some (udp_enabled a); udp_bind = default_udp_bind })
      else if is_bind bind
      then ok (record a { udp_associate = some (udp_enabled a); udp_bind = bind })
      else err bad_udp_bind

  pub within_limits : App → Result AppError App
  within_limits a =
      if is_negative a.max_connections
      then err bad_limit
      else if is_negative a.log_max_size_mb || is_negative a.log_max_files
      then err bad_log_limit
      else ok a

  -- `Normalize`.
  unfoldable pub normalize : App → Result AppError App
  unfolding with_path with_listen with_level with_bind within_limits
  normalize a = with_path a >>= (λ a1.
      with_listen a1 >>= (λ a2. with_level a2 >>= (λ a3. with_bind a3 >>= within_limits)))

-- `LoadApp` behind the reading of the file: `none` is a missing file, `some none` one that cannot be read
-- or that the JSON reader refuses, and otherwise it has been read over the defaults.
unfoldable pub load_app : Platform → Option (Option App) → Option (Result AppError App)
load_app w none = some (normalize w (default_app w.tunnel_config_path))
load_app w (some none) = none
load_app w (some (some a)) = some (normalize w a)
