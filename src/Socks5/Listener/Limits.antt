-- ===== src/Socks5/Listener/Limits.antt =====
-- What the accept loop keeps, over every sequence of its steps.
use awgsocks.Base.{
  ℕ, zero, suc, ◌∙◌, ◌+◌, ◌≤◌, ◌<◌, Bool, true, false, ◌&&◌, ◌∷◌, ◌≡◌, arith, Option, some, ltb,
  if◌then◌else◌, ℤ, pos, negsuc,
}
use awgsocks.Netip.{Addr, AddrPort, is_loopback}
use awgsocks.Socks5.Stats.{zero_stats}
use awgsocks.Socks5.Listener.{
  Listener, accept_error, accept, start, new_listener, is_loopback_conn, resolve_max_conns,
  max_consecutive_errors,
}
use awgsocks.Socks5.Listener.Bounded.{
  Loop, loop_of, Reach, IsBounded, Reach-IsBounded, Reach-max_conns,
}

resolve_max_conns-pos : (n : ℤ) → 0 < resolve_max_conns n
unfolding resolve_max_conns
resolve_max_conns-pos (pos n) = ground arith
resolve_max_conns-pos (negsuc n) = omega arith

start-max_conns :
    (max_conns : ℤ) (ap : AddrPort) (bindable : Bool) {l : Listener}
    → start (some ap) bindable (new_listener max_conns zero_stats) ≡ some l
    → l.max_conns ≡ resolve_max_conns max_conns
unfolding start new_listener
start-max_conns max_conns ap bindable started = ground arith

start-IsBounded :
    (max_conns : ℤ) (ap : AddrPort) (bindable : Bool) {l : Listener}
    → start (some ap) bindable (new_listener max_conns zero_stats) ≡ some l
    → IsBounded (loop_of l)
unfolding start new_listener
start-IsBounded max_conns ap bindable started = record {
  held = ground arith;
  limited = ground arith;
  counted = ground arith;
  mapped = ground arith;
  each = λ c. ground arith;
  served_once = ground arith;
  patient = ground arith;
  gave_up = ground arith;
}

-- What holds of a listener at `ap` with `max_conns` configured, at any time after its start.
pub record IsServing (max_conns : ℤ) (ap : AddrPort) (m : Loop) : Type 0 where
  pub local : is_loopback ap.addr ≡ true
  pub bounded : IsBounded m
  pub cap : m.server.max_conns ≡ resolve_max_conns max_conns
  pub open_to_some : 0 < m.server.max_conns

-- A server that has started is bound to a loopback address, and after any sequence of accepts, accept
-- errors, deferred calls of ending sessions and stops: the sessions that hold a slot are at most as many as
-- the cap, which is positive, and the semaphore counts exactly them; the counter of active sessions counts
-- them and those that have only given back their slot; the map holds these and those that are no longer
-- counted; and the accept loop has given up if ten accepts in a row have failed.
pub start-IsServing :
    (max_conns : ℤ) (ap : AddrPort) (bindable : Bool) {l : Listener} {m : Loop}
    → start (some ap) bindable (new_listener max_conns zero_stats) ≡ some l
    → Reach (loop_of l) m
    → IsServing max_conns ap m
unfolding start new_listener
start-IsServing max_conns ap bindable {l} started path =
    let first : IsBounded (loop_of l) = start-IsBounded max_conns ap bindable started in
    record {
      local = ground arith;
      bounded = Reach-IsBounded path first;
      cap = Reach-max_conns path ∙ start-max_conns max_conns ap bindable started;
      open_to_some = omega (
        arith,
        resolve_max_conns-pos max_conns,
        Reach-max_conns path,
        start-max_conns max_conns ap bindable started,
      );
    }

-- A connection is served exactly if it comes from this machine and a slot is free; otherwise it is
-- counted once as rejected, and no session changes.
pub accept_lem :
    (c : ℕ) (peer : Option Addr) (l : Listener)
    → let m = accept c peer l in
      let serves = is_loopback_conn peer && ltb l.slots l.max_conns in
      (m.sessions ≡ (if serves then c ∷ l.sessions else l.sessions))
      × (m.stats.total ≡ l.stats.total + (if serves then 1 else 0))
      × (m.stats.rejected ≡ l.stats.rejected + (if serves then 0 else 1))
      × (m.errors ≡ 0)
unfolding accept
accept_lem c peer l = ground arith

-- `k` accept errors in a row.
abbrev pub fail_times : ℕ → Listener → Listener
fail_times zero l = l
fail_times (suc k) l = fail_times k (accept_error l)

-- While the server is not closing, the accept loop survives errors in a row until the tenth, and ends
-- with the tenth.
pub fail_times-running :
    (k : ℕ) (l : Listener)
    → l.running ≡ true
    → l.closing ≡ false
    → l.errors + k ≤ max_consecutive_errors
    → l.errors < max_consecutive_errors
    → (fail_times k l).running ≡ ltb (l.errors + k) max_consecutive_errors
unfolding accept_error
fail_times-running zero l run not_closing few more = ground arith
fail_times-running (suc zero) l run not_closing few more = ground arith
fail_times-running (suc (suc k)) l run not_closing few more =
    ground (arith, fail_times-running (suc k) (record l { errors = l.errors + 1 }) run not_closing)
