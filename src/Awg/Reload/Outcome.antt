-- ===== src/Awg/Reload/Outcome.antt =====
-- What a reload leaves behind.
use awgsocks.Base.{
  ◌≡◌, ◌⊎◌, refl, sym, subst, arith, Bool, true, false, not, List, Bytes, Option, none, some, inl,
  inr, Result, ok, err, if◌then◌else◌,
}
use awgsocks.Strings.{Text}
use awgsocks.Config.Finalize.{TunnelConfig}
use awgsocks.Socks5.Failure.{GoError}
use awgsocks.Awg.State.{
  failed, Tunnel, Device, mark_not_ready, kick_handshake, to_uapi, peer_keys, dry_run, start, stop,
  stop_begin, stop_end,
}
use awgsocks.Awg.State.Running.{Runs, HasFailed, start-Runs}
use awgsocks.Awg.Reload.{
  ReloadAnswers, stack_equal, adopt_keys, adopted, restored, applied_in_place, in_place,
  started_again, rebuilt_with, rebuild, reload_running, checked, reload,
}

-- The tunnel runs on a device with a configuration that is neither, and says that it has failed.
pub record IsMixed (c : TunnelConfig) (t : Tunnel) : Type 0 where
  pub is_running : t.running ≡ true
  pub configured : t.cfg ≡ some c
  pub says_so : t.state ≡ failed

-- A reload of `next` over `prev`: it is adopted; or there is an error, and the tunnel is as before, runs
-- with the previous configuration, or has failed and says so, with the previous configuration kept.
abbrev pub Outcome : TunnelConfig → TunnelConfig → Tunnel → Result GoError Bool × Tunnel → Type 0
Outcome prev next t (ok changed, t') = (changed ≡ true) × Runs next t'
Outcome prev next t (err e, t') = (t' ≡ t) ⊎ Runs prev t' ⊎ HasFailed prev t' ⊎ IsMixed prev t'

module _ (w : ReloadAnswers) (prev next : TunnelConfig) where
  adopted-Runs :
      (d : Device) (t : Tunnel) (keys : Result GoError (List Bytes))
      → keys ≡ peer_keys next.config.peers
      → t.running ≡ true
      → Runs next (adopted next (record t { device = some (record d { applied = some next }) }))
  unfolding adopted adopt_keys kick_handshake mark_not_ready
  adopted-Runs d t keys same up = record {
    is_running = ground arith;
    configured = ground arith;
    on_device = (record d { applied = some next }, ground arith, refl);
  }

  restored-Outcome :
      (e : GoError) (restore : Option GoError) (d : Device) (t : Tunnel)
      → Runs prev t
      → Outcome prev next t (restored e restore prev d t)
  unfolding restored
  restored-Outcome e none d t h = inr (
      inl (record {
        is_running = h.is_running;
        configured = h.configured;
        on_device = (record d { applied = some prev }, refl, refl);
      }))
  restored-Outcome e (some e') d t h =
      inr (
        inr (inr (record { is_running = h.is_running; configured = h.configured; says_so = refl })))

  applied_in_place-Outcome :
      (set restore : Option GoError) (d : Device) (t : Tunnel)
      → Runs prev t
      → Outcome prev next t (applied_in_place set restore prev next d t)
  unfolding applied_in_place
  applied_in_place-Outcome none restore d t h =
      (refl, adopted-Runs d t (peer_keys next.config.peers) refl h.is_running)
  applied_in_place-Outcome (some e) restore d t h = restored-Outcome e restore d t h

  in_place-Outcome :
      (u u' : Result GoError Text) (d : Option Device) (t : Tunnel)
      → Runs prev t
      → Outcome prev next t (in_place w u u' prev next d t)
  unfolding in_place
  in_place-Outcome (err e) u' d t h = inl refl
  in_place-Outcome (ok u) (err e) d t h = inl refl
  in_place-Outcome (ok u) (ok u') none t h = inl refl
  in_place-Outcome (ok u) (ok u') (some d) t h =
      applied_in_place-Outcome w.ipc_next w.ipc_restore d t h

  started_again-Outcome :
      (e : GoError) (r : Option GoError × Tunnel) (t : Tunnel)
      → ((r.0 ≡ none) × Runs prev r.1) ⊎ ((e' : GoError) × (r.0 ≡ some e') × HasFailed prev r.1)
      → Outcome prev next t (started_again e r)
  unfolding started_again
  started_again-Outcome e (none, t') t (inl (up, h)) = inr (inl h)
  started_again-Outcome e (none, t') t (inr (e', bad, h)) = absurd (ground arith)
  started_again-Outcome e (some e', t') t (inl (up, h)) = absurd (ground arith)
  started_again-Outcome e (some e', t') t (inr (e'', bad, h)) = inr (inr (inl h))

  rebuilt_with-Outcome :
      (r : Option GoError × Tunnel) (t : Tunnel)
      → ((r.0 ≡ none) × Runs next r.1) ⊎ ((e' : GoError) × (r.0 ≡ some e') × HasFailed next r.1)
      → Outcome prev next t (rebuilt_with w (some prev) r)
  unfolding rebuilt_with
  rebuilt_with-Outcome (none, t') t (inl (up, h)) = (refl, h)
  rebuilt_with-Outcome (none, t') t (inr (e', bad, h)) = absurd (ground arith)
  rebuilt_with-Outcome (some e, t') t (inl (up, h)) = absurd (ground arith)
  rebuilt_with-Outcome (some e, t') t (inr (e', bad, h)) =
      started_again-Outcome e (start w.restore w.now (record t' { cfg = some prev })) t
        (start-Runs w.restore w.now (record t' { cfg = some prev }) prev h.is_down refl)

  stop-down : (t : Tunnel) → t.running ≡ true → (stop t).running ≡ false
  unfolding stop stop_begin stop_end
  stop-down t up = ground arith

  rebuild-Outcome : (t : Tunnel) → Runs prev t → Outcome prev next t (rebuild w (some prev) next t)
  unfolding rebuild
  rebuild-Outcome t h =
      let down : Tunnel = record (stop t) { cfg = some next } in
      rebuilt_with-Outcome (start w.rebuild w.now down) t
        (start-Runs w.rebuild w.now down next (stop-down t h.is_running) refl)

  choice-Outcome :
      (b : Bool) (x y : Result GoError Bool × Tunnel) (t : Tunnel)
      → Outcome prev next t x
      → Outcome prev next t y
      → Outcome prev next t (if b then x else y)
  choice-Outcome true x y t h k = h
  choice-Outcome false x y t h k = k

  reload_running-Outcome :
      (cfg : Option TunnelConfig) (t : Tunnel)
      → cfg ≡ some prev
      → Runs prev t
      → Outcome prev next t (reload_running w cfg next t)
  unfolding reload_running
  reload_running-Outcome none t has h = absurd (ground arith)
  reload_running-Outcome (some c) t has h =
      let same : some prev ≡ some c = sym has in
      subst (λ (o : Option TunnelConfig). Outcome prev next t (reload_running w o next t)) same
        (choice-Outcome (stack_equal prev next)
          (in_place w (to_uapi w.prev_uapi) (to_uapi w.next_uapi) prev next t.device t)
          (rebuild w (some prev) next t) t
          (in_place-Outcome (to_uapi w.prev_uapi) (to_uapi w.next_uapi) t.device t h)
          (rebuild-Outcome t h))

  skipped-Outcome :
      (b : Bool) (x y : Result GoError Bool × Tunnel) (t : Tunnel)
      → b ≡ true
      → Outcome prev next t y
      → Outcome prev next t (if not b then x else y)
  skipped-Outcome true x y t up h = h
  skipped-Outcome false x y t up h = absurd (ground arith)

  checked-Outcome :
      (dry : Result GoError (Unit {0})) (t : Tunnel)
      → Runs prev t
      → Outcome prev next t (checked w dry next t)
  unfolding checked
  checked-Outcome (err e) t h = inl refl
  checked-Outcome (ok u) t h =
      skipped-Outcome t.running (ok true, record t { cfg = some next })
        (reload_running w t.cfg next t) t h.is_running
        (reload_running-Outcome t.cfg t h.configured h)

  -- A reload of a tunnel that runs either succeeds, and the tunnel runs with the new configuration on
  -- its device; or it returns an error, and the tunnel is exactly as it was, or runs with the previous
  -- configuration on its device, or is in the failed state with the previous configuration kept.
  pub reload-Outcome : (t : Tunnel) → Runs prev t → Outcome prev next t (reload w (some next) t)
  unfolding reload
  reload-Outcome t h = checked-Outcome (dry_run w.dry next) t h
