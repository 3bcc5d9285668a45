-- ===== src/Service/Steps/Steady.antt =====
-- What holds of the manager over every order of its locked parts.
use awgsocks.Base.{ℕ, ◌≡◌, refl, inl, arith, Bool, true, false, not, ◌&&◌, Option, none, some}
use awgsocks.Config.Finalize.{TunnelConfig}
use awgsocks.Awg.State.{Tunnel, stop, stop_begin, stop_end}
use awgsocks.Service.Manager.{
  Manager, new_manager, StartError, not_running, paused, start_failed, starts, is_running,
  is_paused, cancel_retry, retry_start, wake_retry, retry_result, attempt_check, attempt_on,
  attempt_with, attempt_start, stop_locked, stopped_tunnel, pause_mark, resume_mark, clear_retry,
}
use awgsocks.Service.Control.{want, unwant, end_context, begin_service}
use awgsocks.Service.Steps.{
  Service, Quiet, Step, quiet, asks, Reach, here, next, begun, IsSteady, IsKept, checks, builds,
  answers, falls_back, steps_aside, cancels, stops, has_paused, renames, unpauses, resumed, wakes,
  nudges, results, unwants, moves, ends,
}
use awgsocks.Service.Steps.Kept.{
  cancel_retry-IsKept, retry_start-IsKept, retry_result-IsKept, awaken-All, end_context-IsKept,
  same-IsKept,
}

-- The parts that only move the retry.
record Alike (m n : Manager) : Type 0 where
  tunnel : n.tunnel ≡ m.tunnel
  paused_by : n.paused_by ≡ m.paused_by

retry_result-Alike :
    (gen : ℕ) (ended : Bool) (e : Option StartError) (m : Manager)
    → Alike m (retry_result gen ended e m)
unfolding retry_result clear_retry
retry_result-Alike gen true e m = record { tunnel = ground arith; paused_by = ground arith }
retry_result-Alike gen false none m = record { tunnel = ground arith; paused_by = ground arith }
retry_result-Alike gen false (some (paused by)) m = record {
  tunnel = ground arith;
  paused_by = ground arith;
}
retry_result-Alike gen false (some not_running) m = record { tunnel = refl; paused_by = refl }
retry_result-Alike gen false (some (start_failed e)) m = record { tunnel = refl; paused_by = refl }

Alike-IsSteady :
    (s : Service) (n : Manager) (callers : ℕ) (resuming : Bool)
    → IsSteady s
    → Alike s.manager n
    → IsKept n
    → IsSteady (record s { manager = n; callers = callers; resuming = resuming })
Alike-IsSteady s n callers resuming h same kept = record {
  aside = rw (same.tunnel, same.paused_by) h.aside;
  locked = rw same.paused_by h.locked;
  kept = kept;
}

pub stop_locked-down : (m : Manager) → is_running (stop_locked m).tunnel ≡ false
unfolding stop_locked stopped_tunnel stop stop_begin stop_end
stop_locked-down m = ground arith

check-open : (m : Manager) (t : Tunnel) → attempt_check m ≡ starts t → is_paused m.paused_by ≡ false
unfolding attempt_check attempt_on attempt_with
check-open m t e = ground arith

-- The parts that leave the retry alone.
Kept-IsSteady :
    (s u : Service)
    → IsSteady s
    → u.manager.retry ≡ s.manager.retry
    → u.manager.retry_gen ≡ s.manager.retry_gen
    → u.manager.retries ≡ s.manager.retries
    → (is_paused u.manager.paused_by && not u.pausing && is_running u.manager.tunnel) ≡ false
    → (u.starting && is_paused u.manager.paused_by && not u.pausing) ≡ false
    → IsSteady u
Kept-IsSteady s u h a b c aside locked = record {
  aside = aside;
  locked = locked;
  kept = same-IsKept s.manager u.manager a b c h.kept;
}

Quiet-IsSteady : {s u : Service} → IsSteady s → Quiet s u → IsSteady u
unfolding wake_retry unwant attempt_start pause_mark resume_mark stop_locked cancel_retry
    retry_start end_context
Quiet-IsSteady {s = s} h (checks t free may e) =
    Kept-IsSteady s _ h refl refl refl h.aside (rw (check-open s.manager t e) refl)
Quiet-IsSteady {s = s} h (builds w now t busy has) =
    Kept-IsSteady s _ h refl refl refl (ground (arith, h.locked)) refl
Quiet-IsSteady {s = s} h answers = Kept-IsSteady s _ h refl refl refl h.aside h.locked
Quiet-IsSteady {s = s} h (falls_back n e) =
    Alike-IsSteady s _ n s.resuming h record { tunnel = refl; paused_by = refl }
      (retry_start-IsKept s.manager h.kept)
Quiet-IsSteady {s = s} h (steps_aside hit p r clear) =
    Kept-IsSteady s _ h refl refl refl refl (ground arith)
Quiet-IsSteady {s = s} h cancels =
    Alike-IsSteady s _ s.callers s.resuming h record { tunnel = refl; paused_by = refl }
      (cancel_retry-IsKept s.manager h.kept)
Quiet-IsSteady {s = s} h (stops free) =
    Kept-IsSteady s _ h refl refl refl (ground (arith, stop_locked-down s.manager)) h.locked
Quiet-IsSteady {s = s} h (has_paused free p) =
    Kept-IsSteady s _ h refl refl refl (ground (arith, stop_locked-down s.manager)) (rw free refl)
Quiet-IsSteady {s = s} h (renames hit was p r e) =
    Kept-IsSteady s _ h refl refl refl (ground (arith, h.aside)) (ground (arith, h.locked))
Quiet-IsSteady {s = s} h (unpauses p r) = Kept-IsSteady s _ h refl refl refl refl (ground arith)
Quiet-IsSteady {s = s} h (resumed r) =
    Alike-IsSteady s _ s.callers false h record { tunnel = refl; paused_by = refl }
      (retry_start-IsKept s.manager h.kept)
Quiet-IsSteady {s = s} h (wakes gen) =
    Alike-IsSteady s _ s.callers s.resuming h record { tunnel = refl; paused_by = refl }
      record {
        current = h.kept.current;
        tracked = awaken-All _ gen s.manager.retries (λ r k. k) h.kept.tracked;
        patient = awaken-All _ gen s.manager.retries (λ r k. k) h.kept.patient;
      }
Quiet-IsSteady {s = s} h nudges = Kept-IsSteady s _ h refl refl refl h.aside h.locked
Quiet-IsSteady {s = s} h (results gen ended e) =
    Alike-IsSteady s _ s.callers s.resuming h (retry_result-Alike gen ended e s.manager)
      (retry_result-IsKept gen ended e s.manager h.kept)
Quiet-IsSteady {s = s} h unwants = Kept-IsSteady s _ h refl refl refl h.aside h.locked
Quiet-IsSteady {s = s} h (moves t u has same) =
    Kept-IsSteady s _ h refl refl refl (ground (arith, h.aside)) h.locked
Quiet-IsSteady {s = s} h ends =
    Alike-IsSteady s _ s.callers s.resuming h record { tunnel = refl; paused_by = refl }
      (end_context-IsKept s.manager h.kept)

Step-IsSteady : {s u : Service} → IsSteady s → Step s u → IsSteady u
unfolding want
Step-IsSteady h (quiet q) = Quiet-IsSteady h q
Step-IsSteady {s = s} h asks = Kept-IsSteady s _ h refl refl refl h.aside h.locked

Reach-IsSteady : {s u : Service} → IsSteady s → Reach Step s u → IsSteady u
Reach-IsSteady h here = h
Reach-IsSteady h (next r q) = Step-IsSteady (Reach-IsSteady h r) q

begun-IsSteady : (auto_start : Bool) (c : TunnelConfig) → IsSteady (begun auto_start c)
unfolding begun begin_service new_manager
begun-IsSteady auto_start c = record {
  aside = refl;
  locked = refl;
  kept = record { current = inl refl; tracked = tt; patient = tt };
}

-- In every state that a service reaches, whatever the order of its parts, a reload of the tunnel being one
-- that leaves it up or down: once the tunnel has been stopped for another client of its configuration, it
-- stays down until the pause ends, and no attempt to start it is under way; each goroutine of a retry that
-- is not cancelled is the one that `cancelRetry` would cancel; and each waits between a second and a minute.
pub begun-Reach-IsSteady :
    (auto_start : Bool) (c : TunnelConfig) (u : Service)
    → Reach Step (begun auto_start c) u
    → IsSteady u
begun-Reach-IsSteady auto_start c u r = Reach-IsSteady (begun-IsSteady auto_start c) r
