-- ===== src/Tests/Manager.antt =====
-- The manager of internal/service.
use mathlib.Core.List.{Memᴰ}
use awgsocks.Base.{ℕ, ◌≡◌, ◌≢◌, ◌⊎◌, refl, true, List, [], ◌∷◌, none, some, codes, ok, pos, All}
use awgsocks.Netip.{Addr, AddrPort, v4, unmap, is_loopback}
use awgsocks.Strings.{trim_space, trim_left, to_lower}
use awgsocks.Config.App.{App, Platform, normalize, validate_loopback_listen, udp_enabled}
use awgsocks.Config.App.Ready.{RoundTrips, IsReady, normalize-IsReady}
use awgsocks.Socks5.Listener.{start}
use awgsocks.Service.Reload.{Proxy, Surroundings, Runtime, new_proxy}
use awgsocks.Ipc.{Call, command_of, is_ok, dispatch, run_command, answer_start}
use awgsocks.Ipc.Answers.{Holds, dispatch-Holds}
use awgsocks.Service.Reload.Honest.{Honest}
use awgsocks.Tests.Tunnel.{reload_answers, site_config, up_tunnel, all_well}
use awgsocks.Awg.State.{new_tunnel, unresolved, plain_error, BuildAnswers}
use awgsocks.Service.Conflict.{HostAddress, is_usable, config_conflict}
use awgsocks.Service.Conflict.Found.{IsOwn, IsFree, config_conflict-Found}
use awgsocks.Service.Manager.{Manager, new_manager, retry_start, pause_mark, stop_locked}
use awgsocks.Service.Control.{stop_tunnel, stop_wanted, run_service, begin_service}
use awgsocks.Service.Control.Begin.{BeginOutcome, run_service-BeginOutcome}
use awgsocks.Service.Steps.{
  Service, Step, quiet, Reach, here, next, begun, IsSteady, steps_aside, has_paused,
}
use awgsocks.Service.Steps.Steady.{begun-Reach-IsSteady}

-- An application's configuration, and the platform that it is checked on.
abbrev loopback : AddrPort
loopback = record { addr = v4 (127 ∷ 0 ∷ 0 ∷ 1 ∷ []); port = 10808 }

abbrev pub platform : Platform
platform = record {
  lower_other = λ c. c;
  tunnel_config_path = codes "client.conf";
  abs = λ path. some path;
  parse_addr_port = λ s. some loopback;
  parse_addr = λ s. some loopback.addr;
  addr_text = λ a. codes "127.0.0.1";
}

abbrev pub settings : App
settings = record {
  config_path = codes "client.conf";
  socks5_listen = codes "127.0.0.1:10808";
  auto_start = true;
  log_level = codes "info";
  max_connections = pos 0;
  log_max_size_mb = pos 0;
  log_max_files = pos 0;
  udp_associate = some true;
  udp_bind = codes "std";
}

settings_accepted : normalize platform settings ≡ ok settings
unfolding normalize validate_loopback_listen trim_space trim_left to_lower is_loopback unmap
    udp_enabled
settings_accepted = refl

platform-RoundTrips : RoundTrips platform
platform-RoundTrips addr ap e = cc

normalize-IsReady_example :
    IsReady platform settings
    × (start (platform.parse_addr_port settings.socks5_listen) true (new_proxy settings).listener
        ≢ none)
normalize-IsReady_example =
    normalize-IsReady platform settings settings (new_proxy settings).listener platform-RoundTrips
      settings_accepted

-- A reload that lowers the limit on the sessions.
abbrev fewer : App
fewer = record settings { max_connections = pos 16 }

abbrev surroundings : Surroundings
surroundings = record {
  lower_other = λ c. c;
  tunnel = reload_answers;
  listed = none;
  parsed = some loopback;
  bindable = true;
}

abbrev served : Proxy
served = record (new_proxy settings) {
  listener = record (new_proxy settings).listener { bound = true; started = true; running = true };
}

abbrev runtime : Runtime
runtime = record {
  manager = record new_manager {
    tun_cfg = some site_config;
    tunnel = some up_tunnel;
    running = true;
  };
  app = some settings;
  proxy = some served;
  stopped = [];
  level = codes "info";
  limits = (pos 0, pos 0);
}

-- The adapter of another client with the same configuration.
abbrev vpn : HostAddress
vpn = record { adapter = codes "AmneziaVPN"; addr = v4 (10 ∷ 0 ∷ 0 ∷ 2 ∷ []) }

abbrev own : List (Addr × ℕ)
own = site_config.prefixes

config_conflict-Found_example :
    ((h : HostAddress) × (config_conflict own (vpn ∷ []) ≡ some h)
      × Memᴰ h (vpn ∷ [])
      × IsOwn own h)
    ⊎ ((config_conflict own (vpn ∷ []) ≡ none)
        × All (λ (p : Addr × ℕ). is_usable (unmap p.0) ≡ true → IsFree (vpn ∷ []) (unmap p.0)) own)
config_conflict-Found_example = config_conflict-Found own (vpn ∷ [])

abbrev aside : Service
aside = record (begun true site_config) {
  manager = stop_locked (pause_mark vpn (begun true site_config).manager);
}

aside_path : Reach Step (begun true site_config) aside
unfolding begun begin_service new_manager
aside_path =
    next (next here (quiet (steps_aside vpn refl refl refl))) (quiet (has_paused refl refl))

begun-Reach-IsSteady_example : IsSteady aside
begun-Reach-IsSteady_example = begun-Reach-IsSteady true site_config aside aside_path

-- The name of the endpoint cannot be resolved yet.
abbrev no_network : BuildAnswers
no_network = record all_well { uapi = unresolved (plain_error (codes "no such host")) }

abbrev waiting : Manager
waiting = retry_start (begin_service true site_config new_manager)

waiting-tunnel : waiting.tunnel ≡ some (new_tunnel (some site_config))
unfolding retry_start begin_service
waiting-tunnel = refl

run_service-BeginOutcome_example :
    ((run_service true site_config (some (vpn ∷ [])) all_well 0 true new_manager).0 ≡ true)
    × BeginOutcome (run_service true site_config (some (vpn ∷ [])) all_well 0 true new_manager).1
run_service-BeginOutcome_example =
    run_service-BeginOutcome site_config (some (vpn ∷ [])) all_well 0 new_manager

-- A request to stop the tunnel.
abbrev call : Call
call = record {
  surroundings = surroundings;
  loaded = ok (fewer, ok site_config);
  build = all_well;
  now = 0;
}

stop_is_ok : is_ok (dispatch call (codes "stop") runtime).0 ≡ true
unfolding dispatch command_of run_command answer_start stop_tunnel stop_wanted
stop_is_ok = refl

dispatch-Holds_example :
    Holds call (command_of (codes "stop")) runtime (dispatch call (codes "stop") runtime).1
dispatch-Holds_example = dispatch-Holds call (codes "stop") runtime stop_is_ok
