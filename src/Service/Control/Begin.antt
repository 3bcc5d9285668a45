-- ===== src/Service/Control/Begin.antt =====
-- What the start of the service comes to.
use awgsocks.Base.{
  ℕ, ◌≡◌, ◌⊎◌, refl, ap, ◌∙◌, inl, inr, true, false, not, List, ◌∷◌, Option, none, some, if-case,
}
use awgsocks.Config.Finalize.{TunnelConfig}
use awgsocks.Awg.State.{Tunnel, BuildAnswers, new_tunnel, stop}
use awgsocks.Service.Conflict.{HostAddress, config_conflict}
use awgsocks.Service.Manager.{
  Manager, Retry, StartError, is_running, is_paused, retry_start, stop_locked, stopped_tunnel,
  check_conflict, conflict_on, conflict_found, pause, pause_mark, cancel_retry, resume, resumes,
  resume_mark, start_retry_min, has_ended,
}
use awgsocks.Service.Control.{auto_started, begin_service, retried, run_service}
use awgsocks.Service.Control.Outcome.{Outcome, runs, is_aside, fails, start_tunnel_once-Outcome}

-- The tunnel runs; or it is paused and down; or it is down, and a goroutine with a context that goes on is
-- there to try again.
pub data BeginOutcome (n : Manager) : Type 0 where
  is_up : is_running n.tunnel ≡ true → BeginOutcome n
  gives_way : is_paused n.paused_by ≡ true → is_running n.tunnel ≡ false → BeginOutcome n
  tries :
      (r : Retry) (rs : List Retry)
      → is_running n.tunnel ≡ false
      → n.retries ≡ r ∷ rs
      → n.retry ≡ some r.gen
      → r.ended ≡ false
      → r.delay ≡ start_retry_min
      → BeginOutcome n

-- A part that does not touch the tunnel but to stop it, nor the context.
pub record Lowers (m n : Manager) : Type 0 where
  tunnel : (n.tunnel ≡ m.tunnel) ⊎ (n.tunnel ≡ stopped_tunnel m.tunnel)
  ctx : n.ctx ≡ m.ctx
  pub tun_cfg : n.tun_cfg ≡ m.tun_cfg

resume-Lowers : (m : Manager) → Lowers m (resume m)
unfolding resume resume_mark retry_start
resume-Lowers m =
    if-case (Lowers m) (not (resumes m)) _ _
      (λ e. record { tunnel = inl refl; ctx = refl; tun_cfg = refl })
      (λ e. record { tunnel = inl refl; ctx = refl; tun_cfg = refl })

conflict_found-Lowers :
    (hit was : Option HostAddress) (m : Manager) → Lowers m (conflict_found hit was m).1
unfolding conflict_found pause pause_mark cancel_retry stop_locked
conflict_found-Lowers (some hit) none m = record { tunnel = inr refl; ctx = refl; tun_cfg = refl }
conflict_found-Lowers (some hit) (some was) m = record {
  tunnel = inl refl;
  ctx = refl;
  tun_cfg = refl;
}
conflict_found-Lowers none (some was) m = resume-Lowers m
conflict_found-Lowers none none m = record { tunnel = inl refl; ctx = refl; tun_cfg = refl }

conflict_on-Lowers :
    (listed : Option (List HostAddress)) (c : Option TunnelConfig) (t : Option Tunnel) (m : Manager)
    → Lowers m (conflict_on listed c t m).1
unfolding conflict_on
conflict_on-Lowers listed none t m = record { tunnel = inl refl; ctx = refl; tun_cfg = refl }
conflict_on-Lowers listed (some c) none m = record { tunnel = inl refl; ctx = refl; tun_cfg = refl }
conflict_on-Lowers none (some c) (some t) m = record {
  tunnel = inl refl;
  ctx = refl;
  tun_cfg = refl;
}
conflict_on-Lowers (some host) (some c) (some t) m =
    conflict_found-Lowers (config_conflict c.prefixes host) m.paused_by m

pub check_conflict-Lowers :
    (listed : Option (List HostAddress)) (m : Manager) → Lowers m (check_conflict listed m).1
unfolding check_conflict
check_conflict-Lowers listed m = conflict_on-Lowers listed m.tun_cfg m.tunnel m

-- A tunnel that is down stays in place, and down.
Lowers-tunnel :
    (m n : Manager) (t : Tunnel)
    → Lowers m n
    → m.tunnel ≡ some t
    → t.running ≡ false
    → (u : Tunnel) × (n.tunnel ≡ some u) × (u.running ≡ false)
unfolding stopped_tunnel stop
Lowers-tunnel m n t h has down = elim h.tunnel [
  | inl same ↦ (t, same ∙ has, down)
  | inr lowered ↦ (stop t, lowered ∙ ap stopped_tunnel has, rw down refl)
]

retried-BeginOutcome :
    (m : Manager) (u : Tunnel) (p : Option StartError × Manager)
    → has_ended m.ctx ≡ false
    → m.tunnel ≡ some u
    → u.running ≡ false
    → Outcome m p
    → BeginOutcome (retried p)
unfolding retried retry_start
retried-BeginOutcome m u _ goes has down (runs t up) = is_up up
retried-BeginOutcome m u _ goes has down (is_aside by aside) =
    gives_way (rw aside refl) (rw has down)
retried-BeginOutcome m u _ goes has down (fails e t clear still) =
    tries _ _ still refl refl goes refl

-- A service that starts with `auto_start` on, whatever the adapters hold and whatever the build of the device
-- answers, ends its start with the tunnel up, or paused for another client and down, or with a retry pending
-- that first waits a second.
pub run_service-BeginOutcome :
    (c : TunnelConfig) (listed : Option (List HostAddress)) (w : BuildAnswers) (now : ℕ)
    (m : Manager)
    → ((run_service true c listed w now true m).0 ≡ true)
      × BeginOutcome (run_service true c listed w now true m).1
unfolding run_service auto_started begin_service new_tunnel
run_service-BeginOutcome c listed w now m =
    let begun = begin_service true c m in
    let lowers = check_conflict-Lowers listed begun in
    let (u, has, down) = Lowers-tunnel begun _ (new_tunnel (some c)) lowers refl refl in
    (
      refl,
      retried-BeginOutcome _ u _ (rw lowers.ctx refl) has down
          (start_tunnel_once-Outcome w now _ u has),
    )
