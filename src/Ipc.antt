-- ===== src/Ipc.antt =====
-- internal/ipc/server_windows.go: `dispatch`, over the manager that handles the commands; protocol.go: the
-- commands. The request has been read and parsed; the report of a status is left out.
pub mod Answers
use awgsocks.Base.{
  ℕ, Bool, true, false, List, [], ◌∷◌, Option, none, some, codes, if◌then◌else◌, Result, ok, err,
  equal,
}
use awgsocks.Strings.{Text}
use awgsocks.Config.App.{App, AppError}
use awgsocks.Config.Finalize.{TunnelConfig}
use awgsocks.Awg.State.{BuildAnswers}
use awgsocks.Service.Manager.{Manager, StartError}
use awgsocks.Service.Control.{start_tunnel, stop_tunnel, reconnect}
use awgsocks.Service.Reload.{Runtime, Report, ReloadError, Surroundings}
use awgsocks.Service.Reload as Reload

-- The commands.
pub data Command : Type 0 where
  ping status reload_files reconnect_tunnel start_command stop_command : Command
  other : Text → Command

unfoldable pub command_of : Text → Command
command_of s =
    if equal s (codes "ping")
    then ping
    else if equal s (codes "status")
    then status
    else if equal s (codes "reload")
    then reload_files
    else if equal s (codes "reconnect")
    then reconnect_tunnel
    else if equal s (codes "start")
    then start_command
    else if equal s (codes "stop")
    then stop_command
    else other s

-- `Response`: with a message, a status, a report, or an error.
pub data Response : Type 0 where
  message : Text → Response
  with_status : Response
  with_report : Report → Response
  start_refused : StartError → Response
  reload_refused : ReloadError → Response
  unknown_command : Text → Response

-- Its field `OK`.
abbrev pub is_ok : Response → Bool
is_ok (message s) = true
is_ok with_status = true
is_ok (with_report rep) = true
is_ok (start_refused e) = false
is_ok (reload_refused e) = false
is_ok (unknown_command s) = false

-- What comes with a call.
pub record Call : Type 0 where
  pub surroundings : Surroundings
  pub loaded : Result AppError (App × Result Text TunnelConfig)
  pub build : BuildAnswers
  pub now : ℕ

unfoldable pub answer_start : Text → Option StartError × Manager → Runtime → Response × Runtime
answer_start done (none, m) r = (message done, record r { manager = m })
answer_start done (some e, m) r = (start_refused e, record r { manager = m })

pub answer_reload : Result ReloadError Report × Runtime → Response × Runtime
answer_reload (ok rep, r) = (with_report rep, r)
answer_reload (err e, r) = (reload_refused e, r)

-- The switch in `dispatch`.
unfoldable pub run_command : Call → Command → Runtime → Response × Runtime
unfolding answer_start answer_reload
run_command w ping r = (message (codes "pong"), r)
run_command w status r = (with_status, r)
run_command w reload_files r = answer_reload (Reload.reload w.surroundings w.loaded r)
run_command w reconnect_tunnel r =
    answer_start (codes "reconnect triggered") (reconnect w.build w.now r.manager) r
run_command w start_command r =
    answer_start (codes "tunnel started") (start_tunnel w.build w.now r.manager) r
run_command w stop_command r = answer_start (codes "tunnel stopped") (stop_tunnel r.manager) r
run_command w (other s) r = (unknown_command s, r)

-- `dispatch`.
unfoldable pub dispatch : Call → Text → Runtime → Response × Runtime
dispatch w s r = run_command w (command_of s) r
