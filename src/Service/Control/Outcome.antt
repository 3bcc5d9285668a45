-- ===== src/Service/Control/Outcome.antt =====
-- What an attempt to start the tunnel comes to.
use awgsocks.Base.{
  ℕ, ◌≡◌, ◌⊎◌, refl, sym, ap, subst, inl, inr, true, false, Option, none, some, if-case,
  Option-cases, ◌==◌,
}
use awgsocks.Socks5.Failure.{GoError}
use awgsocks.Awg.State.{Tunnel, BuildAnswers, start, start_begin, begin_with, started}
use awgsocks.Awg.State.Running.{start-Runs}
use awgsocks.Service.Conflict.{HostAddress}
use awgsocks.Service.Manager.{
  Manager, StartError, paused, start_failed, starts, returns, is_running, is_paused, retry_result,
  attempt_check, attempt_on, attempt_with, attempt_start, attempted, start_tunnel_once, clear_retry,
  without, backed_off, retry_round,
}

start-unset :
    (w : BuildAnswers) (now : ℕ) (t : Tunnel)
    → t.running ≡ false
    → t.cfg ≡ none
    → (e : GoError) × ((start w now t).0 ≡ some e) × ((start w now t).1.running ≡ false)
unfolding start started start_begin begin_with
start-unset w now t down unset = rw (down, unset) (_, refl, refl)

start-cases :
    (w : BuildAnswers) (now : ℕ) (t : Tunnel)
    → t.running ≡ false
    → (((start w now t).0 ≡ none) × ((start w now t).1.running ≡ true))
      ⊎ ((e : GoError) × ((start w now t).0 ≡ some e) × ((start w now t).1.running ≡ false))
start-cases w now t down = elim (Option-cases t.cfg) [
  | inl unset ↦ inr (start-unset w now t down unset)
  | inr (c, set) ↦ elim (start-Runs w now t c down set) [
    | inl (e, runs) ↦ inl (e, runs.is_running)
    | inr (e, why, fails) ↦ inr (e, why, fails.is_down)
  ]
]

-- The manager with another tunnel.
abbrev pub with_tunnel : Manager → Tunnel → Manager
with_tunnel m t = record m { tunnel = some t }

-- What `startTunnelOnce` comes to: the tunnel runs, or it is paused and nothing has changed, or it could not be
-- started.
pub data Outcome (m : Manager) : Option StartError × Manager → Type 0 where
  runs : (t : Tunnel) → t.running ≡ true → Outcome m (none, with_tunnel m t)
  is_aside : (by : HostAddress) → m.paused_by ≡ some by → Outcome m (some (paused by), m)
  fails :
      (e : GoError) (t : Tunnel)
      → m.paused_by ≡ none
      → t.running ≡ false
      → Outcome m (some (start_failed e), with_tunnel m t)

started-Outcome :
    (w : BuildAnswers) (now : ℕ) (m : Manager) (t : Tunnel)
    → m.paused_by ≡ none
    → t.running ≡ false
    → Outcome m (attempt_start w now t m)
unfolding attempt_start
started-Outcome w now m t clear down = elim (start-cases w now t down) [
  | inl (fine, up) ↦ rw fine (runs (start w now t).1 up)
  | inr (e, why, still) ↦ rw why (fails e (start w now t).1 clear still)
]

attempted-Outcome :
    (w : BuildAnswers) (now : ℕ) (m : Manager) (t : Tunnel) (by : Option HostAddress)
    → m.paused_by ≡ by
    → m.tunnel ≡ some t
    → Outcome m (attempted w now (attempt_with by t) m)
unfolding attempted attempt_with
attempted-Outcome w now m t (some by) aside has = is_aside by aside
attempted-Outcome w now m t none clear has =
    if-case (λ a. Outcome m (attempted w now a m)) t.running (returns none) (starts t)
      (λ up.
        subst (λ n. Outcome m (none, n)) (sym (ap (λ o. record m { tunnel = o }) has)) (runs t up))
      (λ down. started-Outcome w now m t clear down)

pub start_tunnel_once-Outcome :
    (w : BuildAnswers) (now : ℕ) (m : Manager) (t : Tunnel)
    → m.tunnel ≡ some t
    → Outcome m (start_tunnel_once w now m)
unfolding start_tunnel_once attempt_check attempt_on
start_tunnel_once-Outcome w now m t has =
    subst (λ o. Outcome m (attempted w now (attempt_on m.paused_by o) m)) (sym has)
      (attempted-Outcome w now m t m.paused_by refl has)

-- One round of a retry. Either the tunnel runs at its end and the goroutine is gone; or the tunnel is paused,
-- and the goroutine is gone; or the start has failed and the goroutine waits again, longer.
pub data RoundOutcome (gen : ℕ) (m n : Manager) : Type 0 where
  succeeds : is_running n.tunnel ≡ true → n.retries ≡ without gen m.retries → RoundOutcome gen m n
  yields :
      is_paused n.paused_by ≡ true
      → n.tunnel ≡ m.tunnel
      → n.retries ≡ without gen m.retries
      → RoundOutcome gen m n
  waits :
      is_paused n.paused_by ≡ false
      → is_running n.tunnel ≡ false
      → n.retry ≡ m.retry
      → n.retries ≡ backed_off gen m.retries
      → RoundOutcome gen m n

clear_retry-retries : (gen : ℕ) (m : Manager) → (clear_retry gen m).retries ≡ without gen m.retries
unfolding clear_retry
clear_retry-retries gen m =
    if-case (λ (n : Manager). n.retries ≡ without gen m.retries) (m.retry_gen == gen) _ _
      (λ e. refl) (λ e. refl)

clear_retry-tunnel : (gen : ℕ) (m : Manager) → (clear_retry gen m).tunnel ≡ m.tunnel
unfolding clear_retry
clear_retry-tunnel gen m =
    if-case (λ (n : Manager). n.tunnel ≡ m.tunnel) (m.retry_gen == gen) _ _ (λ e. refl) (λ e. refl)

clear_retry-paused_by : (gen : ℕ) (m : Manager) → (clear_retry gen m).paused_by ≡ m.paused_by
unfolding clear_retry
clear_retry-paused_by gen m =
    if-case (λ (n : Manager). n.paused_by ≡ m.paused_by) (m.retry_gen == gen) _ _ (λ e. refl)
      (λ e. refl)

result-RoundOutcome :
    (gen : ℕ) (m : Manager) (p : Option StartError × Manager)
    → Outcome m p
    → RoundOutcome gen m (retry_result gen false p.0 p.1)
unfolding retry_result
result-RoundOutcome gen m _ (runs t up) =
    succeeds (rw (clear_retry-tunnel gen (with_tunnel m t)) up)
      (clear_retry-retries gen (with_tunnel m t))
result-RoundOutcome gen m _ (is_aside by aside) =
    yields (rw (clear_retry-paused_by gen m, aside) refl) (clear_retry-tunnel gen m)
      (clear_retry-retries gen m)
result-RoundOutcome gen m _ (fails e t clear down) = waits (rw clear refl) down refl refl

-- A round of the retry while its context goes on comes to one of the three outcomes: it never ends with the
-- tunnel down, not paused, and nobody to try again.
pub retry_round-Outcome :
    (w : BuildAnswers) (now gen : ℕ) (m : Manager) (t : Tunnel)
    → m.tunnel ≡ some t
    → RoundOutcome gen m (retry_round w now gen false m)
unfolding retry_round
retry_round-Outcome w now gen m t has =
    if-case (RoundOutcome gen m) (is_running m.tunnel) _ _
      (λ up. succeeds (rw (clear_retry-tunnel gen m) up) (clear_retry-retries gen m))
      (λ down. result-RoundOutcome gen m _ (start_tunnel_once-Outcome w now m t has))
