-- ===== src/Service/Reload.antt =====
-- internal/service/manager.go: `Reload` and its report; internal/socks5/server.go: the settings of a
-- `Server`. The report's lines are told apart, not written out.
pub mod Honest
pub mod Stored
use awgsocks.Base.{
  ℕ, Bool, true, false, not, ◌&&◌, ◌||◌, List, [], ◌∷◌, ◌++◌, Option, none, some, codes, ◌==◌,
  if◌then◌else◌, Result, ok, err, equal, ℤ, pos, negsuc,
}
use awgsocks.Strings.{Text, to_lower}
use awgsocks.Netip.{AddrPort}
use awgsocks.Config.App.{App, AppError, udp_enabled}
use awgsocks.Config.Finalize.{TunnelConfig}
use awgsocks.Socks5.Failure.{GoError}
use awgsocks.Socks5.Stats.{zero_stats}
use awgsocks.Socks5.Listener.{Listener, resolve_max_conns, new_listener}
use awgsocks.Socks5.Listener as Listener
use awgsocks.Awg.State.{Tunnel}
use awgsocks.Awg.Reload.{ReloadAnswers}
use awgsocks.Awg.Reload as Awg
use awgsocks.Service.Conflict.{HostAddress}
use awgsocks.Service.Manager.{Manager, check_conflict}

-- A SOCKS5 server with its settings.
pub record Proxy : Type 0 where
  pub listen : Text
  pub udp : Bool
  pub listener : Listener

-- `NewWithOptions`, from the application's configuration.
unfoldable pub new_proxy : App → Proxy
unfolding new_listener
new_proxy a = record {
  listen = a.socks5_listen;
  udp = udp_enabled a;
  listener = new_listener a.max_connections zero_stats;
}

-- `Start`: the proxy, if it could start, and `Stop`.
pub proxy_with : Proxy → Option Listener → Option Proxy
proxy_with p none = none
proxy_with p (some l) = some (record p { listener = l })

unfoldable pub start_proxy : Option AddrPort → Bool → Proxy → Option Proxy
unfolding proxy_with
start_proxy parsed bindable p = proxy_with p (Listener.start parsed bindable p.listener)

unfoldable pub stop_proxy : Proxy → Proxy
stop_proxy p = record p { listener = Listener.stopped (Listener.stop p.listener) }

-- Why a listener is built anew, and what `reloadReport` tells.
pub data Change : Type 0 where
  listen_changed : Text → Text → Change
  max_changed : ℕ → ℕ → Change
  udp_changed : Bool → Bool → Change

pub data Setting : Type 0 where
  log_level rotation : Setting
  listener_changed : Change → Setting

pub record Report : Type 0 where
  pub applied : List Setting
  pub at_next_start : Bool
  pub needs_restart : Bool
  pub sessions_cut : Bool
  pub tunnel_reapplied : Bool

abbrev pub differs : Bool → Bool → Bool
differs true b = not b
differs false b = b

abbrev pub when : Bool → Change → List Change → List Change
when true c cs = c ∷ cs
when false c cs = cs

-- `why`.
unfoldable pub changes : App → App → Proxy → List Change
changes old new p =
    when (not (equal new.socks5_listen old.socks5_listen))
      (listen_changed old.socks5_listen new.socks5_listen)
      (when (not (resolve_max_conns new.max_connections == p.listener.max_conns))
        (max_changed p.listener.max_conns (resolve_max_conns new.max_connections))
        (when (differs (udp_enabled new) p.udp) (udp_changed p.udp (udp_enabled new)) []))

-- What the manager keeps besides the tunnel: the running listener and those that were stopped.
pub record Runtime : Type 0 where
  pub manager : Manager
  pub app : Option App
  pub proxy : Option Proxy
  pub stopped : List Proxy
  pub level : Text
  pub limits : ℤ × ℤ

pub data ReloadError : Type 0 where
  no_service : ReloadError
  bad_app : AppError → ReloadError
  bad_tunnel : Text → ReloadError
  not_applied : GoError → ReloadError
  kept_listener lost_listener : ReloadError

abbrev pub replaced : Proxy → Proxy → Runtime → Runtime
replaced old new r = record r { proxy = some new; stopped = stop_proxy old ∷ r.stopped }

-- The new listener on another address, and on the same one.
pub swap_elsewhere : Option Proxy → Proxy → Runtime → Option ReloadError × Runtime
swap_elsewhere none old r = (some kept_listener, r)
swap_elsewhere (some new) old r = (none, replaced old new r)

pub swap_in_place : Option Proxy → Proxy → Proxy → Runtime → Option ReloadError × Runtime
swap_in_place none unstarted old r = (some lost_listener, replaced old unstarted r)
swap_in_place (some new) unstarted old r = (none, replaced old new r)

unfoldable pub swap :
    Option AddrPort → Bool → App → App → Proxy → Runtime → Option ReloadError × Runtime
unfolding swap_elsewhere swap_in_place
swap parsed bindable old new p r =
    let started = start_proxy parsed bindable (new_proxy new) in
    if not (equal new.socks5_listen old.socks5_listen)
    then swap_elsewhere started p r
    else swap_in_place started (new_proxy new) p r

-- The listener's part: the settings that were applied, and whether sessions were cut.
pub data Listening : Type 0 where
  untouched : Listening
  rebuilt : List Change → Option ReloadError × Runtime → Listening

pub relisten_for : List Change → Option ReloadError × Runtime → Listening
relisten_for [] swapped = untouched
relisten_for (c ∷ cs) swapped = rebuilt (c ∷ cs) swapped

unfoldable pub relisten :
    Option AddrPort → Bool → Option App → App → Option Proxy → Runtime → Listening
unfolding relisten_for
relisten parsed bindable none new p r = untouched
relisten parsed bindable (some old) new none r = untouched
relisten parsed bindable (some old) new (some p) r =
    relisten_for (changes old new p) (swap parsed bindable old new p r)

listeners : List Change → List Setting
listeners [] = []
listeners (c ∷ cs) = listener_changed c ∷ listeners cs

-- The settings that are stored, but not in force.
abbrev pub bind_differs : Option App → App → Bool
bind_differs none new = false
bind_differs (some old) new = not (equal new.udp_bind old.udp_bind)

abbrev pub auto_differs : Option App → App → Bool
auto_differs none new = false
auto_differs (some old) new = differs new.auto_start old.auto_start

pub ended :
    Bool
    → List Setting
    → Option App
    → App
    → Listening
    → Runtime
    → Result ReloadError Report × Runtime
unfolding listeners
ended reapplied applied old new untouched r = (
  ok (record {
    applied = applied;
    at_next_start = auto_differs old new;
    needs_restart = bind_differs old new;
    sessions_cut = false;
    tunnel_reapplied = reapplied;
  }),
  record r { app = some new },
)
ended reapplied applied old new (rebuilt why (some e, r')) r = (err e, r')
ended reapplied applied old new (rebuilt why (none, r')) r = (
  ok (record {
    applied = applied ++ listeners why;
    at_next_start = auto_differs old new;
    needs_restart = bind_differs old new;
    sessions_cut = true;
    tunnel_reapplied = reapplied;
  }),
  record r' { app = some new },
)

-- What comes with a call: the adapters' addresses, the address to listen on as it is parsed, and whether
-- the system lets it be bound.
pub record Surroundings : Type 0 where
  pub lower_other : ℕ → ℕ
  pub tunnel : ReloadAnswers
  pub listed : Option (List HostAddress)
  pub parsed : Option AddrPort
  pub bindable : Bool

-- Behind `tunnel.Reload`.
pub after_tunnel :
    Surroundings
    → List Setting
    → App
    → TunnelConfig
    → Result GoError Bool × Tunnel
    → Runtime
    → Result ReloadError Report × Runtime
unfolding ended
after_tunnel w applied new c (err e, t) r =
    (err (not_applied e), record r { manager = record r.manager { tunnel = some t } })
after_tunnel w applied new c (ok changed, t) r =
    let m = record r.manager { tunnel = some t; tun_cfg = some c } in
    let r' = record r { manager = (check_conflict w.listed m).1 } in
    ended changed applied r.app new (relisten w.parsed w.bindable r.app new r.proxy r') r'

-- The log's level and its rotation.
abbrev level_differs : (ℕ → ℕ) → Option App → App → Bool
level_differs lower_other none new = false
level_differs lower_other (some old) new =
    not (equal (to_lower lower_other new.log_level) (to_lower lower_other old.log_level))

abbrev equal_int : ℤ → ℤ → Bool
equal_int (pos a) (pos b) = a == b
equal_int (pos a) (negsuc b) = false
equal_int (negsuc a) (pos b) = false
equal_int (negsuc a) (negsuc b) = a == b

abbrev rotation_differs : Option App → App → Bool
rotation_differs none new = false
rotation_differs (some old) new =
    not (equal_int new.log_max_size_mb old.log_max_size_mb)
    || not (equal_int new.log_max_files old.log_max_files)

log_applied : (ℕ → ℕ) → Option App → App → List Setting
log_applied lower_other old new =
    (if level_differs lower_other old new then log_level ∷ [] else [])
    ++ (if rotation_differs old new then rotation ∷ [] else [])

logged : App → Runtime → Runtime
logged new r = record r {
  level = new.log_level;
  limits =
      if rotation_differs r.app new then (new.log_max_size_mb, new.log_max_files) else r.limits;
}

pub reload_tunnel :
    Surroundings → App → TunnelConfig → Tunnel → Runtime → Result ReloadError Report × Runtime
unfolding after_tunnel log_applied logged
reload_tunnel w new c t r =
    after_tunnel w (log_applied w.lower_other r.app new) new c (Awg.reload w.tunnel (some c) t)
      (logged new r)

-- `Reload`: `loaded` is what `LoadApp` and then `LoadTunnel` return.
pub loaded_with :
    Surroundings
    → Result AppError (App × Result Text TunnelConfig)
    → Tunnel
    → Runtime
    → Result ReloadError Report × Runtime
unfolding reload_tunnel
loaded_with w (err e) t r = (err (bad_app e), r)
loaded_with w (ok (new, err why)) t r = (err (bad_tunnel why), r)
loaded_with w (ok (new, ok c)) t r = reload_tunnel w new c t r

pub reload_on :
    Surroundings
    → Result AppError (App × Result Text TunnelConfig)
    → Option Tunnel
    → Runtime
    → Result ReloadError Report × Runtime
unfolding loaded_with
reload_on w loaded none r = (err no_service, r)
reload_on w loaded (some t) r = loaded_with w loaded t r

unfoldable pub reload :
    Surroundings
    → Result AppError (App × Result Text TunnelConfig)
    → Runtime
    → Result ReloadError Report × Runtime
unfolding reload_on
reload w loaded r = reload_on w loaded r.manager.tunnel r
