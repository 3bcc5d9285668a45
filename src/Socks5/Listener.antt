-- ===== src/Socks5/Listener.antt =====
-- internal/socks5/server.go: `ResolveMaxConns`, `Start`, `Stop` and `acceptLoop`, one step for each
-- accept, accept error, deferred call at the end of a session, and part of `Stop`. What the loop does for a
-- connection that it accepts is one step: the ends of other sessions commute with its later parts.
pub mod Bounded
pub mod Limits
use awgsocks.Base.{
  ℕ, suc, zero, ◌+◌, ◌-◌, Bool, true, false, not, ◌&&◌, ◌||◌, List, [], ◌∷◌, ◌≡◌, Option, none,
  some, ltb, leb, ◌==◌, if◌then◌else◌, length, ℤ, pos, negsuc,
}
use awgsocks.Netip.{Addr, AddrPort, unmap, is_loopback}
use awgsocks.Socks5.Stats.{Stats}

abbrev pub default_max_conns : ℕ
default_max_conns = 1024

-- `ResolveMaxConns`.
unfoldable pub resolve_max_conns : ℤ → ℕ
resolve_max_conns (pos n) = if n == 0 then default_max_conns else n
resolve_max_conns (negsuc n) = default_max_conns

-- The part of `Server` that listens. `slots` counts the tokens in the semaphore, `sessions` holds the
-- connections in `active`, `errors` the consecutive accept errors, `running` is the accept loop.
pub record Listener : Type 0 where
  pub max_conns : ℕ
  pub stats : Stats
  pub slots : ℕ
  pub sessions : List ℕ
  pub errors : ℕ
  pub running : Bool
  pub bound : Bool
  pub started : Bool
  pub closing : Bool

abbrev pub max_consecutive_errors : ℕ
max_consecutive_errors = 10

-- `isLoopbackConn`; `none` is a remote address that is no IP address.
abbrev pub is_loopback_conn : Option Addr → Bool
is_loopback_conn none = false
is_loopback_conn (some a) = is_loopback (unmap a)

-- `Accept` returns an error. The pause before the next round changes no state.
unfoldable pub accept_error : Listener → Listener
accept_error l =
    if l.closing
    then record l { running = false }
    else if leb max_consecutive_errors (l.errors + 1)
    then record l { errors = l.errors + 1; running = false }
    else record l { errors = l.errors + 1 }

abbrev reject : Listener → Listener
reject l = record l { stats = record l.stats { rejected = l.stats.rejected + 1 } }

-- `Accept` returns the connection `c` from `peer`. The send to the semaphore succeeds while it holds
-- fewer tokens than its capacity.
unfoldable pub accept : ℕ → Option Addr → Listener → Listener
accept c peer l =
    let ready = record l { errors = 0 } in
    if not (is_loopback_conn peer)
    then reject ready
    else if not (ltb l.slots l.max_conns)
    then reject ready
    else record ready {
      slots = l.slots + 1;
      sessions = c ∷ l.sessions;
      stats = record l.stats { total = l.stats.total + 1; active = l.stats.active + 1 };
    }

-- `delete(s.active, c)`.
unfoldable pub untrack : ℕ → List ℕ → List ℕ
untrack c [] = []
untrack c (x ∷ xs) = if x == c then xs else x ∷ untrack c xs

unfoldable pub tracks : ℕ → List ℕ → Bool
tracks c [] = false
tracks c (x ∷ xs) = x == c || tracks c xs

-- The deferred calls at the end of a session, each a step by itself: `<-sem`, `s.statActive.Add(-1)` and
-- `s.untrackConn(c)`.
unfoldable pub release_slot : Listener → Listener
release_slot l = record l { slots = l.slots - 1 }

unfoldable pub uncount : Listener → Listener
uncount l = record l { stats = record l.stats { active = l.stats.active - 1 } }

unfoldable pub untrack_conn : ℕ → Listener → Listener
untrack_conn c l = record l { sessions = untrack c l.sessions }

-- `Stop`, up to the wait for the sessions that it has closed.
unfoldable pub stop : Listener → Listener
stop l = if l.closing then l else record l { closing = true; bound = false }

-- `Stop`, behind the wait.
unfoldable pub stopped : Listener → Listener
stopped l = record l { started = false }

-- `Listening`.
abbrev pub listening : Listener → Bool
listening l = l.started && not l.closing

-- `Start`: `parsed` is what `netip.ParseAddrPort` makes of the configured address, `bindable` the
-- answer of `net.Listen`. `none` is an error.
unfoldable pub start : Option AddrPort → Bool → Listener → Option Listener
start none bindable l = none
start (some ap) bindable l =
    if not (is_loopback ap.addr)
    then none
    else if not bindable
    then none
    else some (record l { bound = true; started = true; running = true })

-- `NewWithOptions`.
unfoldable pub new_listener : ℤ → Stats → Listener
unfolding resolve_max_conns
new_listener max_conns s = record {
  max_conns = resolve_max_conns max_conns;
  stats = s;
  slots = 0;
  sessions = [];
  errors = 0;
  running = false;
  bound = false;
  started = false;
  closing = false;
}
