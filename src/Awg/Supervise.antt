-- ===== src/Awg/Supervise.antt =====
-- internal/awg/tunnel.go: `supervise`, one step for each tick and each request to reconnect, and
-- `performReconnect`. Time is in nanoseconds.
pub mod Backoff
use awgsocks.Base.{
  ℕ, suc, ◌+◌, ◌-◌, ◌*◌, Bool, true, false, not, ◌&&◌, ◌||◌, List, [], ◌∷◌, ◌++◌, Option, none,
  some, codes, ltb, ◌==◌, if◌then◌else◌, Result, ok, err,
}
use mathlib.Core.List.{reverse}
use awgsocks.Strings.{Text}
use awgsocks.Netip.{Addr}
use awgsocks.Config.Finalize.{Peer, TunnelConfig}
use awgsocks.Socks5.Failure.{GoError}
use awgsocks.Awg.Stats.{Stats, StatsError, parse_uapi_get, last_handshake}
use awgsocks.Awg.State.{
  State, stopped, connecting, connected, reconnecting, failed, Tunnel, Device, UapiAnswer,
  set_state, mark_ready, mark_not_ready, kick_handshake, to_uapi,
}

abbrev pub second : ℕ
second = 1000000000

-- `handshakeStaleAfter`, `minBackoff`, `maxBackoff` and `superviseInterval`.
abbrev pub handshake_stale_after : ℕ
handshake_stale_after = 180 * second

abbrev pub min_backoff : ℕ
min_backoff = second

abbrev pub max_backoff : ℕ
max_backoff = 60 * second

abbrev pub supervise_interval : ℕ
supervise_interval = second

-- The variables of `supervise`.
pub record Supervisor : Type 0 where
  pub backoff : ℕ
  pub next_kick : ℕ
  pub was_connected : Bool

abbrev pub new_supervisor : ℕ → Supervisor
new_supervisor now = record {
  backoff = min_backoff;
  next_kick = now + min_backoff;
  was_connected = false;
}

-- `readStats`, at the time of the newest handshake: `none` is an error, `some none` no handshake. The
-- argument is what `IpcGet` answers.
handshake_in : Result StatsError Stats → Option (Option ℕ)
handshake_in (err e) = none
handshake_in (ok s) = some (last_handshake s)

asked : Bool → Option Device → Option Text → Option (Option ℕ)
unfolding handshake_in
asked true (some d) (some raw) = handshake_in (parse_uapi_get raw)
asked true (some d) none = none
asked true none raw = none
asked false d raw = none

unfoldable pub read_stats : Option Text → Tunnel → Option (Option ℕ)
unfolding asked
read_stats raw t = asked t.running t.device raw

-- A handshake that is not stale.
abbrev pub is_healthy : ℕ → Option ℕ → Bool
is_healthy now none = false
is_healthy now (some at) = ltb (now - at) handshake_stale_after

abbrev pub double : ℕ → ℕ
double backoff =
    if ltb backoff max_backoff
    then (if ltb max_backoff (backoff * 2) then max_backoff else backoff * 2)
    else backoff

abbrev is_reconnecting : State → Bool
is_reconnecting reconnecting = true
is_reconnecting stopped = false
is_reconnecting connecting = false
is_reconnecting connected = false
is_reconnecting failed = false

-- `clearError`, and `t.reconnects.Add(1)`.
abbrev clear_error : Tunnel → Tunnel
clear_error t = record t { last_error = [] }

abbrev count_reconnect : Tunnel → Tunnel
count_reconnect t = record t { reconnects = suc t.reconnects }

-- The state behind `markNotReady`.
noticed : ℕ → Supervisor → Tunnel → Supervisor × Tunnel
noticed now s t =
    if s.was_connected
    then (
      record { backoff = min_backoff; next_kick = now; was_connected = false },
      count_reconnect (set_state reconnecting t),
    )
    else (s, (if is_reconnecting t.state then t else set_state connecting t))

-- The handshake that is due.
due : ℕ → Supervisor × Tunnel → Supervisor × Tunnel
due now (s, t) =
    if ltb now s.next_kick
    then (s, t)
    else (record s { next_kick = now + s.backoff; backoff = double s.backoff }, kick_handshake t)

sampled : ℕ → Option ℕ → Supervisor → Tunnel → Supervisor × Tunnel
unfolding noticed due
sampled now handshake s t =
    if is_healthy now handshake
    then (
      record { backoff = min_backoff; next_kick = now + 90 * second; was_connected = true },
      mark_ready (clear_error (set_state connected t)),
    )
    else due now (noticed now s (mark_not_ready t))

read_with : ℕ → Option (Option ℕ) → Supervisor → Tunnel → Supervisor × Tunnel
unfolding sampled
read_with now none s t = (s, t)
read_with now (some handshake) s t = sampled now handshake s t

-- A tick: one round of the loop by itself, its calls one after the other. Each call is atomic; what another
-- goroutine may do between two of them stands in none of the theorems.
unfoldable pub tick : ℕ → Option Text → Supervisor → Tunnel → Supervisor × Tunnel
unfolding read_with
tick now raw s t = read_with now (read_stats raw t) s t

-- `Reconnect`.
unfoldable pub request_reconnect : Tunnel → Tunnel
request_reconnect t = record t { kick = true }

-- What the upstream calls answer in `performReconnect`.
pub record ReconnectAnswers : Type 0 where
  pub bind_update : Option GoError
  pub uapi : UapiAnswer
  pub ipc_set : Option GoError

-- `t.setError`, if there is an error.
note : Text → Option GoError → Tunnel → Tunnel
note prefix none t = t
note prefix (some e) t = record t { last_error = prefix ++ e.message }

set_again : Option GoError → Device → TunnelConfig → Tunnel → Tunnel
unfolding note
set_again none d c t = record t { device = some (record d { applied = some c }) }
set_again (some e) d c t =
    note (codes "could not apply the new endpoint: ") (some e)
      (record t { device = some (record d { applied = none }) })

-- `strings.Trim(host, "[]")`.
drop_brackets : Text → Text
drop_brackets [] = []
drop_brackets (c ∷ s) = if c == b'[' || c == b']' then drop_brackets s else c ∷ s

trim_brackets : Text → Text
unfolding drop_brackets
trim_brackets s = reverse (drop_brackets (reverse (drop_brackets s)))

-- `endpointNeedsResolution`.
unfoldable pub needs_resolution : (Text → Option Addr) → List Peer → Bool
unfolding trim_brackets
needs_resolution parse_addr [] = false
needs_resolution parse_addr (p ∷ ps) =
    let rest = needs_resolution parse_addr ps in
    elim (parse_addr (trim_brackets p.host)) [ none ↦ true | some a ↦ rest ]

module _ (parse_addr : Text → Option Addr) where
  reapply : ReconnectAnswers → Result GoError Text → Device → TunnelConfig → Tunnel → Tunnel
  unfolding note set_again
  reapply w (err e) d c t = note (codes "could not re-resolve the endpoint: ") (some e) t
  reapply w (ok uapi) d c t = set_again w.ipc_set d c t

  resolve_again : ReconnectAnswers → Device → Option TunnelConfig → Tunnel → Tunnel
  unfolding reapply
  resolve_again w d none t = t
  resolve_again w d (some c) t =
      if needs_resolution parse_addr c.config.peers then reapply w (to_uapi w.uapi) d c t else t

  reconnect_device : ReconnectAnswers → Option Device → Tunnel → Tunnel
  unfolding resolve_again note
  reconnect_device w none t = t
  reconnect_device w (some d) t =
      let begun = record (mark_not_ready (record t { reconnects = suc t.reconnects })) {
        state = reconnecting;
      } in
      kick_handshake (
        resolve_again w d begun.cfg
          (note (codes "could not reopen the UDP socket: ") w.bind_update begun))

  -- `performReconnect`.
  unfoldable pub perform_reconnect : ReconnectAnswers → Tunnel → Tunnel
  unfolding reconnect_device
  perform_reconnect w t = if not t.running then t else reconnect_device w t.device t

  -- A request to reconnect that `supervise` takes.
  unfoldable pub take_kick : ℕ → ReconnectAnswers → Tunnel → Supervisor × Tunnel
  take_kick now w t = (new_supervisor now, perform_reconnect w (record t { kick = false }))
