-- ===== src/Service/Steps.antt =====
-- internal/service/manager.go: the manager over every order of its locked parts.
pub mod Steady
pub mod Kept
use awgsocks.Base.{
  ℕ, suc, zero, ◌+◌, ◌-◌, ◌≡◌, ◌≤◌, ◌<◌, ◌⊎◌, Bool, true, false, not, ◌&&◌, ◌||◌, List, [], ◌∷◌,
  Option, none, some, ◌==◌, All, if◌then◌else◌,
}
use awgsocks.Config.Finalize.{TunnelConfig}
use awgsocks.Awg.State.{Tunnel, BuildAnswers}
use awgsocks.Service.Conflict.{HostAddress}
use awgsocks.Service.Manager.{
  Manager, Retry, StartError, starts, new_manager, is_running, is_paused, cancel_retry, retry_start,
  wake_retry, retry_result, attempt_check, attempt_start, stop_locked, pause_mark, resume_mark,
  resumes, start_retry_min, start_retry_max,
}
use awgsocks.Service.Control.{want, unwant, end_context, begin_service}

-- The manager between two locked parts: `starting` is an attempt that holds `startMu`, `pausing` and
-- `resuming` say how far `checkConflict` has come, and `callers` counts the starts that were asked for.
pub record Service : Type 0 where
  pub manager : Manager
  pub starting : Bool
  pub pausing : Bool
  pub resuming : Bool
  pub callers : ℕ

-- The wait of a goroutine is over.
unfoldable pub awaken : ℕ → List Retry → List Retry
awaken gen [] = []
awaken gen (r ∷ rs) = (if r.gen == gen then record r { awake = true } else r) ∷ awaken gen rs

abbrev pub some_awake : List Retry → Bool
some_awake [] = false
some_awake (r ∷ rs) = r.awake || some_awake rs

-- Somebody may try to start the tunnel.
abbrev pub may_try : ℕ → List Retry → Bool
may_try (suc n) rs = true
may_try zero rs = some_awake rs

-- A step without a request to start: an attempt in its two parts, `checkConflict` in its parts, the parts
-- of a retry and of `StopTunnel`, the end of the context, and what leaves the tunnel up or down.
pub data Quiet (s : Service) : Service → Type 0 where
  checks :
      (t : Tunnel)
      → s.starting ≡ false
      → may_try s.callers s.manager.retries ≡ true
      → attempt_check s.manager ≡ starts t
      → Quiet s (record s { starting = true })
  builds :
      (w : BuildAnswers) (now : ℕ) (t : Tunnel)
      → s.starting ≡ true
      → s.manager.tunnel ≡ some t
      → Quiet s (record s { starting = false; manager = (attempt_start w now t s.manager).1 })
  answers : Quiet s (record s { callers = s.callers - 1 })
  falls_back :
      (n : ℕ)
      → s.callers ≡ suc n
      → Quiet s (record s { callers = n; manager = retry_start s.manager })
  steps_aside :
      (hit : HostAddress)
      → s.pausing ≡ false
      → s.resuming ≡ false
      → s.manager.paused_by ≡ none
      → Quiet s (record s { pausing = true; manager = pause_mark hit s.manager })
  cancels : Quiet s (record s { manager = cancel_retry s.manager })
  stops : s.starting ≡ false → Quiet s (record s { manager = stop_locked s.manager })
  has_paused :
      s.starting ≡ false
      → s.pausing ≡ true
      → Quiet s (record s { pausing = false; manager = stop_locked s.manager })
  renames :
      (hit was : HostAddress)
      → s.pausing ≡ false
      → s.resuming ≡ false
      → s.manager.paused_by ≡ some was
      → Quiet s (record s { manager = pause_mark hit s.manager })
  unpauses :
      s.pausing ≡ false
      → s.resuming ≡ false
      → Quiet s (record s { resuming = resumes s.manager; manager = resume_mark s.manager })
  resumed :
      s.resuming ≡ true → Quiet s (record s { resuming = false; manager = retry_start s.manager })
  wakes :
      (gen : ℕ)
      → Quiet s (record s {
        manager = record s.manager { retries = awaken gen s.manager.retries; retry_wake = false };
      })
  nudges : Quiet s (record s { manager = wake_retry s.manager })
  results :
      (gen : ℕ) (ended : Bool) (e : Option StartError)
      → Quiet s (record s { manager = retry_result gen ended e s.manager })
  unwants : Quiet s (record s { manager = unwant s.manager })
  moves :
      (t u : Tunnel)
      → s.manager.tunnel ≡ some t
      → u.running ≡ t.running
      → Quiet s (record s { manager = record s.manager { tunnel = some u } })
  ends : Quiet s (record s { manager = end_context s.manager })

-- A request to start it comes in besides.
pub data Step (s : Service) : Service → Type 0 where
  quiet : {u : Service} → Quiet s u → Step s u
  asks : Step s (record s { callers = suc s.callers; manager = want s.manager })

module _ (R : Service → Service → Type 0) where
  pub data Reach (s : Service) : Service → Type 0 where
    here : Reach s s
    next : {t u : Service} → Reach s t → R t u → Reach s u

-- The service when it begins; an automatic start is the first caller.
unfoldable pub begun : Bool → TunnelConfig → Service
begun auto_start c = record {
  manager = begin_service auto_start c new_manager;
  starting = false;
  pausing = false;
  resuming = false;
  callers = if auto_start then 1 else 0;
}

-- A goroutine whose context has not ended is the one that `cancelRetry` ends, and every wait is within
-- the bounds.
pub record IsKept (m : Manager) : Type 0 where
  pub current : (m.retry ≡ none) ⊎ (m.retry ≡ some m.retry_gen)
  pub tracked : All (λ (r : Retry). r.ended ≡ false → m.retry ≡ some r.gen) m.retries
  pub patient :
      All (λ (r : Retry). (start_retry_min ≤ r.delay) × (r.delay ≤ start_retry_max)) m.retries

-- While another client holds the configuration and the tunnel has been stopped for it, the tunnel is
-- down, and nobody starts it.
pub record IsSteady (s : Service) : Type 0 where
  pub aside :
      (is_paused s.manager.paused_by && not s.pausing && is_running s.manager.tunnel) ≡ false
  pub locked : (s.starting && is_paused s.manager.paused_by && not s.pausing) ≡ false
  pub kept : IsKept s.manager
