-- ===== src/Ipc/Answers.antt =====
-- What an answer without an error says of the service.
use awgsocks.Base.{
  ◌⊎◌, inl, inr, Bool, ℕ, ◌≡◌, refl, sym, subst, arith, true, false, not, Option, none, some,
  Result, ok, err, if-case, codes,
}
use awgsocks.Strings.{Text}
use awgsocks.Awg.State.{Tunnel, BuildAnswers}
use awgsocks.Awg.Supervise.{request_reconnect}
use awgsocks.Service.Manager.{Manager, StartError, is_running, cancel_retry}
use awgsocks.Service.Control.{
  start_tunnel, start_wanted, stop_tunnel, stop_wanted, reconnect, reconnect_with, reconnected,
  want, unwant,
}
use awgsocks.Service.Control.Outcome.{Outcome, runs, is_aside, fails, start_tunnel_once-Outcome}
use awgsocks.Service.Steps.Steady.{stop_locked-down}
use awgsocks.Service.Reload.Stored.{IsStored, StoresLoaded, reload-StoresLoaded}
use awgsocks.Config.App.{App, AppError}
use awgsocks.Config.Finalize.{TunnelConfig}
use awgsocks.Ipc.{
  Command, ping, status, reload_files, reconnect_tunnel, start_command, stop_command, other, is_ok,
  Call, answer_start, answer_reload, run_command, command_of, dispatch,
}
use awgsocks.Service.Reload.{Runtime, Report, ReloadError}

-- The tunnel's supervisor has been asked to reconnect.
abbrev asked : Option Tunnel → Bool
asked none = false
asked (some t) = t.kick

-- The tunnel runs, and either it has been started or it is asked to reconnect.
abbrev Reconnects : Manager → Manager → Type 0
Reconnects m n =
    (is_running n.tunnel ≡ true) × ((is_running m.tunnel ≡ false) ⊎ (asked n.tunnel ≡ true))

abbrev StoresFiles : Result AppError (App × Result Text TunnelConfig) → Runtime → Type 0
StoresFiles (ok (new, ok c)) r = IsStored new c r
StoresFiles (ok (new, err why)) r = ⊥
StoresFiles (err e) r = ⊥

-- What a command's answer stands for: a start for a tunnel that runs, a reconnect for one that runs and is
-- asked to reconnect or has just been started, a stop for one that does not run, a reload for the
-- configurations that were loaded being the ones kept, and the others for a service left alone.
abbrev pub Holds : Call → Command → Runtime → Runtime → Type 0
Holds w ping r r' = r' ≡ r
Holds w status r r' = r' ≡ r
Holds w reload_files r r' = StoresFiles w.loaded r'
Holds w reconnect_tunnel r r' = Reconnects r.manager r'.manager
Holds w start_command r r' = is_running r'.manager.tunnel ≡ true
Holds w stop_command r r' = is_running r'.manager.tunnel ≡ false
Holds w (other s) r r' = ⊥

-- A result without an error leaves a tunnel that runs.
IsUp : Option StartError × Manager → Type 0
IsUp (none, m) = is_running m.tunnel ≡ true
IsUp (some e, m) = Unit

Outcome-IsUp : (m : Manager) (p : Option StartError × Manager) → Outcome m p → IsUp p
unfolding IsUp
Outcome-IsUp m _ (runs t up) = up
Outcome-IsUp m _ (is_aside by aside) = tt
Outcome-IsUp m _ (fails e t clear down) = tt

start_wanted-IsUp :
    (w : BuildAnswers) (now : ℕ) (m : Manager) (o : Option Tunnel)
    → m.tunnel ≡ o
    → IsUp (start_wanted w now o m)
unfolding start_wanted IsUp want
start_wanted-IsUp w now m none e = tt
start_wanted-IsUp w now m (some t) e =
    if-case IsUp t.running _ _ (λ up. subst (λ o. is_running o ≡ true) (sym e) up)
      (λ down. Outcome-IsUp (want m) _ (start_tunnel_once-Outcome w now (want m) t e))

Brings : Manager → Option StartError × Manager → Type 0
Brings m (none, n) = Reconnects m n
Brings m (some e, n) = Unit

IsUp-Brings :
    (m : Manager) (p : Option StartError × Manager)
    → is_running m.tunnel ≡ false
    → IsUp p
    → Brings m p
unfolding IsUp Brings
IsUp-Brings m (none, n) down up = (up, inl down)
IsUp-Brings m (some e, n) down up = tt

reconnected-Reconnects :
    (t : Tunnel) (m : Manager) → t.running ≡ true → Reconnects m (reconnected (some t) m)
unfolding reconnected request_reconnect
reconnected-Reconnects t m up = rw up (refl, inr refl)

reconnect_with-Brings :
    (w : BuildAnswers) (now : ℕ) (m : Manager) (o : Option Tunnel)
    → m.tunnel ≡ o
    → Brings m (reconnect_with w now o m)
unfolding reconnect_with Brings start_tunnel
reconnect_with-Brings w now m none e = tt
reconnect_with-Brings w now m (some t) e =
    if-case (Brings m) (not t.running) _ _
      (λ down.
        IsUp-Brings m (start_wanted w now m.tunnel m) (rw e (ground (arith, down)))
          (start_wanted-IsUp w now m m.tunnel refl))
      (λ up. reconnected-Reconnects t m (ground (arith, up)))

answer_reconnect :
    (done : Text) (p : Option StartError × Manager) (r : Runtime)
    → Brings r.manager p
    → is_ok (answer_start done p r).0 ≡ true
    → Reconnects r.manager (answer_start done p r).1.manager
unfolding answer_start Brings
answer_reconnect done (none, m) r h fine = h
answer_reconnect done (some e, m) r h fine = cc

answer_start-up :
    (done : Text) (p : Option StartError × Manager) (r : Runtime)
    → IsUp p
    → is_ok (answer_start done p r).0 ≡ true
    → is_running (answer_start done p r).1.manager.tunnel ≡ true
unfolding answer_start IsUp
answer_start-up done (none, m) r up fine = up
answer_start-up done (some e, m) r up fine = cc

answer_stop-down :
    (done : Text) (o : Option Tunnel) (m : Manager) (r : Runtime)
    → is_ok (answer_start done (stop_wanted o m) r).0 ≡ true
    → is_running (answer_start done (stop_wanted o m) r).1.manager.tunnel ≡ false
unfolding answer_start stop_wanted
answer_stop-down done none m r fine = cc
answer_stop-down done (some t) m r fine = stop_locked-down (cancel_retry (unwant m))

answer_reload-stored :
    (loaded : Result AppError (App × Result Text TunnelConfig))
    (p : Result ReloadError Report × Runtime)
    → StoresLoaded loaded p
    → is_ok (answer_reload p).0 ≡ true
    → StoresFiles loaded (answer_reload p).1
unfolding answer_reload
answer_reload-stored (ok (new, ok c)) (ok rep, r) stored fine = stored
answer_reload-stored (ok (new, err why)) (ok rep, r) stored fine = stored
answer_reload-stored (err e) (ok rep, r) stored fine = stored
answer_reload-stored loaded (err e, r) stored fine = cc

run_command-Holds :
    (w : Call) (c : Command) (r : Runtime)
    → is_ok (run_command w c r).0 ≡ true
    → Holds w c r (run_command w c r).1
unfolding run_command reconnect start_tunnel stop_tunnel
run_command-Holds w ping r fine = refl
run_command-Holds w status r fine = refl
run_command-Holds w reload_files r fine =
    answer_reload-stored w.loaded _ (reload-StoresLoaded w.surroundings w.loaded r) fine
run_command-Holds w reconnect_tunnel r fine =
    answer_reconnect (codes "reconnect triggered") _ r
      (reconnect_with-Brings w.build w.now r.manager r.manager.tunnel refl) fine
run_command-Holds w start_command r fine =
    answer_start-up (codes "tunnel started") _ r
      (start_wanted-IsUp w.build w.now r.manager r.manager.tunnel refl) fine
run_command-Holds w stop_command r fine =
    answer_stop-down (codes "tunnel stopped") r.manager.tunnel r.manager r fine
run_command-Holds w (other s) r fine = cc

-- A command that is answered without an error has done what its answer says: behind `start` the tunnel
-- runs, behind `reconnect` it runs and either was started or is asked to reconnect, behind `stop` it does
-- not run, behind `reload` the two configurations that were loaded are the ones that the manager keeps, and
-- `ping` and `status` have changed nothing. Any other command is answered with an error.
pub dispatch-Holds :
    (w : Call) (s : Text) (r : Runtime)
    → is_ok (dispatch w s r).0 ≡ true
    → Holds w (command_of s) r (dispatch w s r).1
unfolding dispatch
dispatch-Holds w s r fine = run_command-Holds w (command_of s) r fine
