-- ===== src/Awg/Reload.antt =====
-- internal/awg/tunnel.go: `Reload` and `stackEqual`, with nothing between their parts.
pub mod Outcome
use awgsocks.Base.{
  ℕ, Bool, true, false, not, ◌&&◌, ◌||◌, List, [], ◌∷◌, ◌++◌, Option, none, some, codes, ◌==◌,
  if◌then◌else◌, Result, ok, err, Bytes,
}
use awgsocks.Strings.{Text}
use awgsocks.Netip.{Addr, equal_addr}
use awgsocks.Config.Finalize.{TunnelConfig}
use awgsocks.Socks5.Failure.{GoError}
use awgsocks.Awg.State.{
  State, connecting, failed, Tunnel, Device, UapiAnswer, BuildAnswers, plain_error, wrap, set_state,
  mark_not_ready, kick_handshake, to_uapi, peer_keys, dry_run, start, stop,
}

unfoldable pub equal_addrs : List Addr → List Addr → Bool
equal_addrs [] [] = true
equal_addrs [] (b ∷ bs) = false
equal_addrs (a ∷ as') [] = false
equal_addrs (a ∷ as') (b ∷ bs) = equal_addr a b && equal_addrs as' bs

-- `stackEqual`.
unfoldable pub stack_equal : TunnelConfig → TunnelConfig → Bool
stack_equal a b =
    a.mtu == b.mtu
    && equal_addrs a.addresses b.addresses
    && equal_addrs a.dns b.dns
    && equal_addrs a.local_dns b.local_dns

-- What the upstream calls answer in `Reload`.
pub record ReloadAnswers : Type 0 where
  pub dry : BuildAnswers
  pub prev_uapi : UapiAnswer
  pub next_uapi : UapiAnswer
  pub ipc_next : Option GoError
  pub ipc_restore : Option GoError
  pub rebuild : BuildAnswers
  pub restore : BuildAnswers
  pub now : ℕ

abbrev apply_to : Option TunnelConfig → Device → Tunnel → Tunnel
apply_to c d t = record t { device = some (record d { applied = c }) }

adopt_keys : Result GoError (List Bytes) → Tunnel → Tunnel
adopt_keys (err e) t = t
adopt_keys (ok keys) t = record t { peer_keys = keys }

-- What is stored under the lock.
abbrev adopt_config : TunnelConfig → Tunnel → Tunnel
adopt_config next t = adopt_keys (peer_keys next.config.peers) (record t { cfg = some next })

-- The configuration is on the device: the calls one after the other, as they run by themselves.
unfoldable pub adopted : TunnelConfig → Tunnel → Tunnel
unfolding adopt_keys
adopted next t = kick_handshake (set_state connecting (mark_not_ready (adopt_config next t)))

restored : GoError → Option GoError → TunnelConfig → Device → Tunnel → Result GoError Bool × Tunnel
restored e none prev d t = (
  err (
      wrap (codes "the new configuration could not be applied, the previous one was restored: ") e),
  apply_to (some prev) d t,
)
restored e (some e') prev d t = (
  err (
      wrap
        (codes
          "the new configuration could not be applied and the previous one could not be restored: ")
        e'),
  record (apply_to none d t) {
    state = failed;
    last_error = codes "rollback failed: " ++ e'.message;
  },
)

applied_in_place :
    Option GoError
    → Option GoError
    → TunnelConfig
    → TunnelConfig
    → Device
    → Tunnel
    → Result GoError Bool × Tunnel
unfolding restored
applied_in_place none restore prev next d t = (ok true, adopted next (apply_to (some next) d t))
applied_in_place (some e) restore prev next d t = restored e restore prev d t

-- The branch that keeps the network stack. A tunnel that runs has a device.
in_place :
    ReloadAnswers
    → Result GoError Text
    → Result GoError Text
    → TunnelConfig
    → TunnelConfig
    → Option Device
    → Tunnel
    → Result GoError Bool × Tunnel
unfolding applied_in_place
in_place w (err e) next_uapi prev next d t = (
  err (
      wrap
        (codes
          "the current configuration could not be rendered for rollback, nothing was changed: ")
        e),
  t,
)
in_place w (ok u) (err e) prev next d t = (
  err (wrap (codes "the new configuration could not be rendered, keeping the running tunnel: ") e),
  t,
)
in_place w (ok u) (ok u') prev next none t = (err (plain_error []), t)
in_place w (ok u) (ok u') prev next (some d) t =
    applied_in_place w.ipc_next w.ipc_restore prev next d t

-- The text of the first error is left out.
started_again : GoError → Option GoError × Tunnel → Result GoError Bool × Tunnel
started_again e (none, t) = (
  err (wrap (codes "the new configuration failed to start, the previous one was restored: ") e),
  t,
)
started_again e (some e', t) = (
  err (
      wrap
        (codes "the new configuration failed to start and the previous one did not start either: ")
        e'),
  t,
)

rebuilt_with :
    ReloadAnswers → Option TunnelConfig → Option GoError × Tunnel → Result GoError Bool × Tunnel
unfolding started_again
rebuilt_with w prev (none, t) = (ok true, t)
rebuilt_with w prev (some e, t) = started_again e (start w.restore w.now (record t { cfg = prev }))

-- The branch that builds the stack anew.
rebuild : ReloadAnswers → Option TunnelConfig → TunnelConfig → Tunnel → Result GoError Bool × Tunnel
unfolding rebuilt_with
rebuild w prev next t =
    rebuilt_with w prev (start w.rebuild w.now (record (stop t) { cfg = some next }))

reload_running :
    ReloadAnswers → Option TunnelConfig → TunnelConfig → Tunnel → Result GoError Bool × Tunnel
unfolding in_place rebuild
reload_running w none next t = rebuild w none next t
reload_running w (some prev) next t =
    if stack_equal prev next
    then in_place w (to_uapi w.prev_uapi) (to_uapi w.next_uapi) prev next t.device t
    else rebuild w (some prev) next t

checked :
    ReloadAnswers → Result GoError (Unit {0}) → TunnelConfig → Tunnel → Result GoError Bool × Tunnel
unfolding reload_running
checked w (err e) next t =
    (err (wrap (codes "the new configuration is invalid, keeping the running tunnel: ") e), t)
checked w (ok u) next t =
    if not t.running then (ok true, record t { cfg = some next }) else reload_running w t.cfg next t

-- `Reload`; the result is whether anything changed.
unfoldable pub reload : ReloadAnswers → Option TunnelConfig → Tunnel → Result GoError Bool × Tunnel
unfolding checked
reload w none t = (err (plain_error (codes "the new configuration is empty")), t)
reload w (some next) t = checked w (dry_run w.dry next) next t
