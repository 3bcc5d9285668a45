-- ===== src/Service/Manager.antt =====
-- internal/service/manager.go: the manager's state, the retry of a start, and the pause for another
-- client, each function in its locked parts. Lines for the log are left out.
use awgsocks.Base.{
  ℕ, suc, ◌*◌, Bool, true, false, not, ◌&&◌, List, [], ◌∷◌, Option, none, some, ◌==◌, ltb,
  if◌then◌else◌,
}
use awgsocks.Config.Finalize.{TunnelConfig}
use awgsocks.Socks5.Failure.{GoError}
use awgsocks.Awg.State.{Tunnel, BuildAnswers}
use awgsocks.Awg.State as State
use awgsocks.Awg.Supervise.{second}
use awgsocks.Service.Conflict.{HostAddress, config_conflict}

abbrev pub start_retry_min : ℕ
start_retry_min = second

abbrev pub start_retry_max : ℕ
start_retry_max = 60 * second

-- A goroutine of `retryStart`: `ended` is its context's, and `awake` says that its wait is over.
pub record Retry : Type 0 where
  pub gen : ℕ
  pub delay : ℕ
  pub attempt : ℕ
  pub awake : Bool
  pub ended : Bool

-- `Manager`. `retry` is the generation that `retryCancel` belongs to, `retries` holds the goroutines,
-- and `ctx` says whether the context has ended, once there is one.
pub record Manager : Type 0 where
  pub tun_cfg : Option TunnelConfig
  pub tunnel : Option Tunnel
  pub running : Bool
  pub ctx : Option Bool
  pub tunnel_wanted : Bool
  pub paused_by : Option HostAddress
  pub retry : Option ℕ
  pub retry_gen : ℕ
  pub retry_wake : Bool
  pub retries : List Retry

-- `NewManager`.
unfoldable pub new_manager : Manager
new_manager = record {
  tun_cfg = none;
  tunnel = none;
  running = false;
  ctx = none;
  tunnel_wanted = false;
  paused_by = none;
  retry = none;
  retry_gen = 0;
  retry_wake = false;
  retries = [];
}

abbrev pub is_running : Option Tunnel → Bool
is_running none = false
is_running (some t) = t.running

-- The cancel function of a generation.
abbrev cancel_one : ℕ → Retry → Retry
cancel_one gen r = if r.gen == gen then record r { ended = true } else r

unfoldable pub cancel_gen : Option ℕ → List Retry → List Retry
cancel_gen none rs = rs
cancel_gen (some gen) [] = []
cancel_gen (some gen) (r ∷ rs) = cancel_one gen r ∷ cancel_gen (some gen) rs

-- `cancelRetry`.
unfoldable pub cancel_retry : Manager → Manager
cancel_retry m = record m { retry = none; retries = cancel_gen m.retry m.retries }

abbrev pub has_ended : Option Bool → Bool
has_ended none = false
has_ended (some b) = b

-- `retryStart`, up to the goroutine's first wait. The context is the service's.
unfoldable pub retry_start : Manager → Manager
retry_start m = record m {
  retry = some (suc m.retry_gen);
  retry_gen = suc m.retry_gen;
  retries =
      record {
        gen = suc m.retry_gen;
        delay = start_retry_min;
        attempt = 2;
        awake = false;
        ended = has_ended m.ctx;
      }
      ∷ cancel_gen m.retry m.retries;
}

-- `wakeRetry`.
unfoldable pub wake_retry : Manager → Manager
wake_retry m = record m { retry_wake = true }

unfoldable pub without : ℕ → List Retry → List Retry
without gen [] = []
without gen (r ∷ rs) = let rest = without gen rs in if r.gen == gen then rest else r ∷ rest

-- `clearRetry`, at the end of the goroutine.
unfoldable pub clear_retry : ℕ → Manager → Manager
clear_retry gen m =
    if m.retry_gen == gen
    then record m { retry = none; retries = without gen m.retries }
    else record m { retries = without gen m.retries }

-- What `startTunnelOnce` returns.
pub data StartError : Type 0 where
  not_running : StartError
  paused : HostAddress → StartError
  start_failed : GoError → StartError

-- What `startTunnelOnce` does next: it returns, or starts the tunnel.
pub data Attempt : Type 0 where
  returns : Option StartError → Attempt
  starts : Tunnel → Attempt

unfoldable pub attempt_with : Option HostAddress → Tunnel → Attempt
attempt_with (some by) t = returns (some (paused by))
attempt_with none t = if t.running then returns none else starts t

unfoldable pub attempt_on : Option HostAddress → Option Tunnel → Attempt
unfolding attempt_with
attempt_on by none = returns (some not_running)
attempt_on by (some t) = attempt_with by t

-- `startTunnelOnce` up to the start.
unfoldable pub attempt_check : Manager → Attempt
unfolding attempt_on
attempt_check m = attempt_on m.paused_by m.tunnel

abbrev pub start_error : Option GoError → Option StartError
start_error none = none
start_error (some e) = some (start_failed e)

-- The start of the tunnel `t` under `startMu`.
unfoldable pub attempt_start : BuildAnswers → ℕ → Tunnel → Manager → Option StartError × Manager
attempt_start w now t m =
    let (e, t') = State.start w now t in (start_error e, record m { tunnel = some t' })

unfoldable pub attempted : BuildAnswers → ℕ → Attempt → Manager → Option StartError × Manager
unfolding attempt_start
attempted w now (returns e) m = (e, m)
attempted w now (starts t) m = attempt_start w now t m

-- `startTunnelOnce`.
unfoldable pub start_tunnel_once : BuildAnswers → ℕ → Manager → Option StartError × Manager
unfolding attempted
start_tunnel_once w now m = attempted w now (attempt_check m) m

-- `tunnel.Stop()` under `startMu`.
unfoldable pub stopped_tunnel : Option Tunnel → Option Tunnel
stopped_tunnel none = none
stopped_tunnel (some t) = some (State.stop t)

unfoldable pub stop_locked : Manager → Manager
unfolding stopped_tunnel
stop_locked m = record m { tunnel = stopped_tunnel m.tunnel }

-- `pause`, with its first locked part by itself.
unfoldable pub pause_mark : HostAddress → Manager → Manager
pause_mark hit m = record m { paused_by = some hit }

unfoldable pub pause : HostAddress → Manager → Manager
pause hit m = stop_locked (cancel_retry (pause_mark hit m))

-- `resume`: its locked part, and whether it then starts a retry.
unfoldable pub resume_mark : Manager → Manager
resume_mark m = record m { paused_by = none }

has_ctx : Option Bool → Bool
has_ctx none = false
has_ctx (some b) = true

unfoldable pub resumes : Manager → Bool
unfolding has_ctx
resumes m = m.tunnel_wanted && has_ctx m.ctx

unfoldable pub resume : Manager → Manager
resume m = if not (resumes m) then resume_mark m else retry_start (resume_mark m)

unfoldable pub conflict_found : Option HostAddress → Option HostAddress → Manager → Bool × Manager
conflict_found (some hit) none m = (true, pause hit m)
conflict_found (some hit) (some was) m = (true, pause_mark hit m)
conflict_found none (some was) m = (false, resume m)
conflict_found none none m = (false, m)

abbrev pub is_paused : Option HostAddress → Bool
is_paused none = false
is_paused (some by) = true

-- `checkConflict`: `listed` is what the adapters' addresses are, or `none` if reading them failed.
unfoldable pub conflict_on :
    Option (List HostAddress) → Option TunnelConfig → Option Tunnel → Manager → Bool × Manager
unfolding conflict_found
conflict_on listed none t m = (false, m)
conflict_on listed (some c) none m = (false, m)
conflict_on none (some c) (some t) m = (is_paused m.paused_by, m)
conflict_on (some host) (some c) (some t) m =
    conflict_found (config_conflict c.prefixes host) m.paused_by m

unfoldable pub check_conflict : Option (List HostAddress) → Manager → Bool × Manager
unfolding conflict_on
check_conflict listed m = conflict_on listed m.tun_cfg m.tunnel m

-- `delay *= 2`, up to the limit.
abbrev pub next_delay : ℕ → ℕ
next_delay d = if ltb start_retry_max (d * 2) then start_retry_max else d * 2

unfoldable pub backed_off : ℕ → List Retry → List Retry
backed_off gen [] = []
backed_off gen (r ∷ rs) =
    (if r.gen == gen
      then record r { delay = next_delay r.delay; attempt = suc r.attempt; awake = false }
      else r)
    ∷ backed_off gen rs

-- The loop in `retryStart` behind an attempt: `ended` is its context's, `e` the attempt's error.
unfoldable pub retry_result : ℕ → Bool → Option StartError → Manager → Manager
retry_result gen true e m = clear_retry gen m
retry_result gen false none m = clear_retry gen m
retry_result gen false (some (paused by)) m = clear_retry gen m
retry_result gen false (some not_running) m = record m { retries = backed_off gen m.retries }
retry_result gen false (some (start_failed e)) m = record m { retries = backed_off gen m.retries }

-- A round of that loop behind its wait, with nothing between its parts.
unfoldable pub retry_round : BuildAnswers → ℕ → ℕ → Bool → Manager → Manager
retry_round w now gen ended m =
    if is_running m.tunnel
    then clear_retry gen m
    else (let (e, m') = start_tunnel_once w now m in retry_result gen ended e m')
