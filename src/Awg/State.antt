-- ===== src/Awg/State.antt =====
-- internal/awg/tunnel.go: the tunnel's state, `Start` and `Stop`, each in its locked parts.
pub mod Running
use awgsocks.Base.{
  ℕ, suc, ◌+◌, Bool, true, false, not, ◌&&◌, ◌||◌, List, [], ◌∷◌, ◌++◌, Option, none, some, Bytes,
  codes, ◌==◌, if◌then◌else◌, Result, ok, err, ◌>>=◌,
}
use awgsocks.Strings.{Text}
use awgsocks.Netip.{Addr, AddrPort, v4, v6}
use awgsocks.Config.Finalize.{Peer, TunnelConfig, has_family}
use awgsocks.Socks5.Failure.{GoError}
use awgsocks.Dns
use awgsocks.Dns.{Resolver}

pub data State : Type 0 where
  stopped connecting connected reconnecting failed : State

-- A `device.Device` with its network stack: the configuration that was applied last, which is `none`
-- after a call of `IpcSet` that failed half way, and where the priming packet went.
pub record Device : Type 0 where
  pub applied : Option TunnelConfig
  pub primed : Option AddrPort

-- `Tunnel`. A channel is a number; `ready` is closed if `ready_closed` is set, and `channels` counts
-- those that were made. `supervised` says that `supervise` runs, and `handshakes` counts the calls of
-- `kickHandshake` that found a device.
pub record Tunnel : Type 0 where
  pub cfg : Option TunnelConfig
  pub device : Option Device
  pub peer_keys : List Bytes
  pub ready : ℕ
  pub ready_closed : Bool
  pub channels : ℕ
  pub running : Bool
  pub state : State
  pub last_error : Text
  pub reconnects : ℕ
  pub started_at : Option ℕ
  pub kick : Bool
  pub supervised : Bool
  pub handshakes : ℕ
  pub resolver : Resolver

-- `NewWithBindAndNetstack`.
unfoldable pub new_tunnel : Option TunnelConfig → Tunnel
new_tunnel cfg = record {
  cfg = cfg;
  device = none;
  peer_keys = [];
  ready = 0;
  ready_closed = false;
  channels = 1;
  running = false;
  state = stopped;
  last_error = [];
  reconnects = 0;
  started_at = none;
  kick = false;
  supervised = false;
  handshakes = 0;
  resolver = Dns.new;
}

-- An error that is none of the sentinels.
abbrev pub plain_error : Text → GoError
plain_error message = record {
  tunnel_down = false;
  not_ready = false;
  no_dns = false;
  deadline_exceeded = false;
  canceled = false;
  message = message;
}

-- `fmt.Errorf("…%w", err)`.
abbrev pub wrap : Text → GoError → GoError
wrap prefix e = record e { message = prefix ++ e.message }

-- `ErrTunnelDown`, `ErrNotReady` behind the context's text, `ErrNoDNS`, and `ErrNoRoute`.
abbrev pub tunnel_down_error : GoError
tunnel_down_error = record (plain_error (codes "the AmneziaWG tunnel is not running")) {
  tunnel_down = true;
}

abbrev pub not_ready_error : Text → GoError
not_ready_error why =
    record (plain_error (codes "the AmneziaWG handshake has not completed: " ++ why)) {
      not_ready = true;
    }

abbrev pub no_dns_error : GoError
no_dns_error =
    record (plain_error (
      codes
        "the configuration names no DNS server, so a hostname cannot be resolved inside the tunnel")) {
          no_dns = true;
        }

abbrev pub no_route_error : Text → GoError
no_route_error family = plain_error (
    codes "the tunnel carries no address of that family: tunnel has no "
    ++ family
    ++ codes " address")

-- `setState`.
abbrev pub set_state : State → Tunnel → Tunnel
set_state s t = record t { state = s }

-- `markReady`.
unfoldable pub mark_ready : Tunnel → Tunnel
mark_ready t = record t { ready_closed = true }

-- `markNotReady`.
unfoldable pub mark_not_ready : Tunnel → Tunnel
mark_not_ready t =
    if not t.running
    then t
    else if t.ready_closed
    then record t { ready = t.channels; ready_closed = false; channels = suc t.channels }
    else t

-- `kickHandshake`.
kick_device : Option Device → Tunnel → Tunnel
kick_device none t = t
kick_device (some d) t = record t { handshakes = suc t.handshakes }

unfoldable pub kick_handshake : Tunnel → Tunnel
unfolding kick_device
kick_handshake t = kick_device t.device t

-- `toUAPI`: what the upstream writer answers before its timeout, or the error of the wait.
pub data UapiAnswer : Type 0 where
  rendered : Text → UapiAnswer
  unresolved : GoError → UapiAnswer
  timed_out : UapiAnswer
  done_waiting : GoError → UapiAnswer

unfoldable pub to_uapi : UapiAnswer → Result GoError Text
to_uapi (rendered uapi) = ok uapi
to_uapi (unresolved e) = err (wrap (codes "could not resolve the endpoint: ") e)
to_uapi timed_out = err (plain_error (codes "timed out resolving the endpoint"))
to_uapi (done_waiting e) = err e

-- `peerKeys`.
unfoldable pub peer_keys : List Peer → Result GoError (List Bytes)
peer_keys [] = ok []
peer_keys (p ∷ ps) = elim p.key [
  | none ↦ err (plain_error (codes "a peer public key could not be converted"))
  | some k ↦ peer_keys ps >>= (λ ks. ok (k ∷ ks))
]

-- What the upstream calls answer in `buildDevice` and `DryRun`; `none` is no error.
pub record BuildAnswers : Type 0 where
  pub create_tun : Option GoError
  pub uapi : UapiAnswer
  pub ipc_set : Option GoError
  pub up : Option GoError

-- `if err != nil { return fmt.Errorf("…%w", err) }`.
unfoldable pub check : Text → Option GoError → Result GoError (Unit {0})
check prefix none = ok tt
check prefix (some e) = err (wrap prefix e)

-- `primeTransportPadding`: where its packet goes.
unfoldable pub prime_target : TunnelConfig → Option AddrPort
prime_target c =
    if c.s4 == 0
    then none
    else some (record {
      addr =
          if has_family false c
          then v4 (192 ∷ 0 ∷ 2 ∷ 1 ∷ [])
          else v6 (0x20 ∷ 0x01 ∷ 0x0d ∷ 0xb8 ∷ 0 ∷ 0 ∷ 0 ∷ 0 ∷ 0 ∷ 0 ∷ 0 ∷ 0 ∷ 0 ∷ 0 ∷ 0 ∷ 1 ∷ [])
              [];
      port = 9;
    })

-- `buildDevice`.
unfoldable pub build_device : BuildAnswers → TunnelConfig → Result GoError (Device × List Bytes)
build_device w c =
    check (codes "could not create the userspace network stack: ") w.create_tun >>= (λ made.
      to_uapi w.uapi >>= (λ uapi.
        check (codes "the AmneziaWG configuration could not be applied to the device: ") w.ipc_set
        >>= (λ set. check (codes "the AmneziaWG device could not be brought up: ") w.up >>= (λ up.
            peer_keys c.config.peers
            >>= (λ keys. ok (record { applied = some c; primed = prime_target c }, keys))))))

-- `DryRun`.
unfoldable pub dry_run : BuildAnswers → TunnelConfig → Result GoError (Unit {0})
dry_run w c = to_uapi w.uapi >>= (λ uapi.
    check (codes "could not create the userspace network stack: ") w.create_tun >>= (λ made.
      check (codes "the AmneziaWG configuration was rejected by the upstream device: ") w.ipc_set
      >>= (λ set. peer_keys c.config.peers >>= (λ keys. ok tt))))

-- `Start` up to `buildDevice`.
unfoldable pub begin_with : Option TunnelConfig → Tunnel → Result GoError TunnelConfig × Tunnel
begin_with none t = (err (plain_error (codes "no tunnel configuration has been loaded")), t)
begin_with (some c) t = (ok c, record t { state = connecting; last_error = [] })

unfoldable pub start_begin : Tunnel → Result GoError TunnelConfig × Tunnel
unfolding begin_with
start_begin t =
    if t.running
    then (err (plain_error (codes "the tunnel is already running")), t)
    else begin_with t.cfg t

-- `Start` behind `buildDevice`.
unfoldable pub start_end :
    ℕ → Result GoError (Device × List Bytes) → Tunnel → Option GoError × Tunnel
unfolding kick_handshake
start_end now (err e) t = (some e, record t { state = failed; last_error = e.message })
start_end now (ok (d, keys)) t = (
  none,
  kick_handshake (record t {
    device = some d;
    peer_keys = keys;
    ready = t.channels;
    ready_closed = false;
    channels = suc t.channels;
    running = true;
    started_at = some now;
    supervised = true;
    resolver = Dns.flush t.resolver;
  }),
)

unfoldable pub started :
    BuildAnswers → ℕ → Result GoError TunnelConfig × Tunnel → Option GoError × Tunnel
unfolding start_end
started w now (err e, t) = (some e, t)
started w now (ok c, t) = start_end now (build_device w c) t

-- `Start`, with nothing between its parts.
unfoldable pub start : BuildAnswers → ℕ → Tunnel → Option GoError × Tunnel
unfolding started start_begin
start w now t = started w now (start_begin t)

-- `Stop`, its locked part.
unfoldable pub stop_begin : Tunnel → Tunnel
stop_begin t =
    if not t.running then t else record t { device = none; running = false; ready_closed = true }

-- `Stop` behind it: `supervise` has ended.
unfoldable pub stop_end : Tunnel → Tunnel
stop_end t = record t { supervised = false; resolver = Dns.flush t.resolver; state = stopped }

-- `Stop`, with nothing between its parts.
unfoldable pub stop : Tunnel → Tunnel
unfolding stop_begin stop_end
stop t = if not t.running then t else stop_end (stop_begin t)
