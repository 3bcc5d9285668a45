-- ===== src/Service/Control.antt =====
-- internal/service/manager.go: the calls of the management pipe, of the network watcher and of the
-- Windows service control, and the service's own start and stop.
pub mod Outcome
pub mod Begin
use awgsocks.Base.{
  ℕ, Bool, true, false, not, ◌&&◌, ◌||◌, List, [], ◌∷◌, Option, none, some, codes, if◌then◌else◌,
  Result, ok, err, Bytes, map, equal, ◌++◌,
}
use awgsocks.Strings.{Text}
use awgsocks.Config.Finalize.{TunnelConfig}
use awgsocks.Awg.State.{Tunnel, BuildAnswers, new_tunnel}
use awgsocks.Awg.State as State
use awgsocks.Awg.Supervise.{request_reconnect}
use awgsocks.Service.Conflict.{HostAddress}
use awgsocks.Service.Manager.{
  Manager, Retry, StartError, not_running, paused, start_failed, is_running, cancel_retry,
  retry_start, wake_retry, clear_retry, start_tunnel_once, stop_locked, check_conflict,
}

-- `StartTunnel`, up to the attempt, and with it.
unfoldable pub want : Manager → Manager
want m = record m { tunnel_wanted = true }

unfoldable pub start_wanted :
    BuildAnswers → ℕ → Option Tunnel → Manager → Option StartError × Manager
unfolding want
start_wanted w now none m = (some not_running, m)
start_wanted w now (some t) m =
    if t.running then (none, want m) else start_tunnel_once w now (want m)

unfoldable pub start_tunnel : BuildAnswers → ℕ → Manager → Option StartError × Manager
unfolding start_wanted
start_tunnel w now m = start_wanted w now m.tunnel m

-- `StopTunnel`, its first locked part by itself.
unfoldable pub unwant : Manager → Manager
unwant m = record m { tunnel_wanted = false }

unfoldable pub stop_wanted : Option Tunnel → Manager → Option StartError × Manager
unfolding unwant
stop_wanted none m = (some not_running, m)
stop_wanted (some t) m = (none, stop_locked (cancel_retry (unwant m)))

unfoldable pub stop_tunnel : Manager → Option StartError × Manager
unfolding stop_wanted
stop_tunnel m = stop_wanted m.tunnel m

-- `Tunnel.Reconnect` of a tunnel that runs.
unfoldable pub reconnected : Option Tunnel → Manager → Manager
reconnected none m = m
reconnected (some t) m = if t.running then record m { tunnel = some (request_reconnect t) } else m

-- `Reconnect`.
unfoldable pub reconnect_with :
    BuildAnswers → ℕ → Option Tunnel → Manager → Option StartError × Manager
unfolding reconnected
reconnect_with w now none m = (some not_running, m)
reconnect_with w now (some t) m =
    if not t.running then start_tunnel w now m else (none, reconnected (some t) m)

unfoldable pub reconnect : BuildAnswers → ℕ → Manager → Option StartError × Manager
unfolding reconnect_with
reconnect w now m = reconnect_with w now m.tunnel m

-- `OnPowerResume`.
unfoldable pub on_power_resume : Manager → Manager
unfolding reconnected
on_power_resume m = reconnected m.tunnel m

-- `networkChanged`.
unfoldable pub network_changed : Option (List HostAddress) → Manager → Manager
network_changed listed m = (check_conflict listed m).1

settled : Bool → Manager → Manager
unfolding reconnected
settled true m = m
settled false m = if is_running m.tunnel then reconnected m.tunnel m else wake_retry m

-- `networkSettled`.
unfoldable pub network_settled : Option (List HostAddress) → Manager → Manager
unfolding settled
network_settled listed m = let (aside, m') = check_conflict listed m in settled aside m'

-- The locked part of `Start`, behind the loading of both files.
unfoldable pub begin_service : Bool → TunnelConfig → Manager → Manager
begin_service auto_start c m = record m {
  tun_cfg = some c;
  tunnel = some (new_tunnel (some c));
  running = true;
  ctx = some false;
  tunnel_wanted = auto_start;
}

-- A start that fails otherwise than by a pause is tried again.
unfoldable pub retried : Option StartError × Manager → Manager
retried (none, m) = m
retried (some (paused by), m) = m
retried (some not_running, m) = retry_start m
retried (some (start_failed e), m) = retry_start m

-- The automatic start.
unfoldable pub auto_started : Option (List HostAddress) → BuildAnswers → ℕ → Manager → Manager
unfolding retried
auto_started listed w now m = retried (start_tunnel_once w now (check_conflict listed m).1)

-- `cancel()`: the service's context ends, and with it those of the retries.
unfoldable pub end_retries : List Retry → List Retry
end_retries [] = []
end_retries (r ∷ rs) = record r { ended = true } ∷ end_retries rs

unfoldable pub end_context : Manager → Manager
end_context m = record m { ctx = some true; retries = end_retries m.retries }

-- `Start`, behind the loading: `bound` is whether the SOCKS5 server could start. The result says
-- whether the service has started.
unfoldable pub run_service :
    Bool
    → TunnelConfig
    → Option (List HostAddress)
    → BuildAnswers
    → ℕ
    → Bool
    → Manager
    → Bool × Manager
run_service auto_start c listed w now bound m =
    let begun = begin_service auto_start c m in
    let up = if auto_start then auto_started listed w now begun else begun in
    if not bound
    then (false, record (stop_locked (end_context up)) { running = false })
    else (true, up)

-- What loading the files may return, and `Start`.
unfoldable pub start_service :
    Result Text (Bool × TunnelConfig)
    → Option (List HostAddress)
    → BuildAnswers
    → ℕ
    → Bool
    → Manager
    → Result Text Bool × Manager
start_service loaded listed w now bound m =
    if m.running then (err (codes "the service is already running"), m) else elim loaded [
      | err why ↦ (err why, m)
      | ok (auto_start, c) ↦
          let (up, m') = run_service auto_start c listed w now bound m in (ok up, m')
    ]

-- The goroutines return, each with `clearRetry`.
unfoldable pub finish_retries : List Retry → Manager → Manager
finish_retries [] m = m
finish_retries (r ∷ rs) m = finish_retries rs (clear_retry r.gen m)

-- `Stop`: the context ends, the goroutines return, and the tunnel stops.
stop_context : Manager → Manager
unfolding end_context
stop_context m = end_context (record m { running = false })

unfoldable pub stop_service : Manager → Manager
unfolding stop_context
stop_service m =
    if not m.running then m else stop_locked (finish_retries m.retries (stop_context m))
