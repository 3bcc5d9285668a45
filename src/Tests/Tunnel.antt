-- ===== src/Tests/Tunnel.antt =====
-- The tunnel of internal/awg, from its configuration to its calls.
use awgsocks.Base.{
  List, ℕ, ◌<◌, ◌+◌, ◌≤◌, ◌*◌, ◌≡◌, ◌≢◌, ◌⊎◌, refl, inl, true, false, [], ◌∷◌, Option, none, some,
  codes, ok, err, arith,
}
use awgsocks.Strings.{Text, split, cut, trim_space}
use awgsocks.Netip.{Addr, v4, unmap, is_loopback}
use awgsocks.Config.Finalize.{Peer, UpstreamConfig, TunnelConfig, finalize}
use awgsocks.Config.Scan.{Kv}
use awgsocks.Config.Values.{digits_onto}
use awgsocks.Config.Mtu.{choose_mtu, safe_mtu, default_mtu, min_safe_mtu}
use awgsocks.Config.Parse.{
  parse_rest, per_packet_overhead, overhead_onto, atoi_positive, parse_rest-fits,
}
use awgsocks.Config.Finalize.Sound.{IsComplete, unfinished, finalize-IsComplete}
use awgsocks.Socks5.Failure.{rep_network_unreachable}
use awgsocks.Socks5.Stats.{zero_stats}
use awgsocks.Socks5.Target.{Destination}
use awgsocks.Socks5.Connect.{connect}
use awgsocks.Awg.Stats.{parse_uapi_get, is_in, parse_lines, parse_line, last_handshake}
use awgsocks.Awg.Stats.Secrets.{public_lines, is_secret}
use awgsocks.Awg.State.{Tunnel, Device, BuildAnswers, rendered, connected, new_tunnel}
use awgsocks.Awg.State.Running.{Runs}
use awgsocks.Awg.Dial.{Round, Wait, World, dialer_of, has_dns, dial_tcp}
use awgsocks.Awg.Dial.Down.{dialer_of-refuses}
use awgsocks.Awg.Dial.Ready.{Seen, IsWoken, SaysDown, dial_tcp-Seen}
use awgsocks.Awg.Lookup.{Attempt, lookup_uncached}
use awgsocks.Awg.Lookup.Attempts.{KeepsTo, lookup_uncached-KeepsTo}
use awgsocks.Awg.Supervise.{new_supervisor, second, read_stats}
use awgsocks.Awg.Supervise.Backoff.{run_ticks, begins, supervise-handshakes}
use awgsocks.Awg.Reload.{ReloadAnswers, reload}
use awgsocks.Awg.Reload.Outcome.{Outcome, reload-Outcome}

abbrev far_peer : Peer
far_peer = record {
  key_is_zero = false;
  key = some (1 ∷ []);
  endpoint_is_empty = false;
  host = codes "vpn.example";
  port = 51820;
  allowed_ips = 1;
}

abbrev upstream : UpstreamConfig
upstream = record {
  interface_addresses = (10 ∷ 0 ∷ 0 ∷ 2 ∷ [], 32) ∷ [];
  interface_dns = (10 ∷ 0 ∷ 0 ∷ 1 ∷ []) ∷ [];
  search = [];
  peers = far_peer ∷ [];
}

abbrev pub site_config : TunnelConfig
site_config = record {
  config = upstream;
  addresses = v4 (10 ∷ 0 ∷ 0 ∷ 2 ∷ []) ∷ [];
  prefixes = (v4 (10 ∷ 0 ∷ 0 ∷ 2 ∷ []), 32) ∷ [];
  dns = v4 (10 ∷ 0 ∷ 0 ∷ 1 ∷ []) ∷ [];
  local_dns = [];
  search = [];
  mtu = 1280;
  s4 = 0;
  warnings = [];
}

accepted : finalize (unfinished upstream 1280 0) ≡ ok site_config
unfolding finalize unmap is_loopback
accepted = refl

finalize-IsComplete_example : IsComplete upstream 1280 site_config
finalize-IsComplete_example = finalize-IsComplete upstream 1280 0 site_config accepted

-- The same, with a prefix of 20 bytes and no MTU.
abbrev padded : List Kv
padded = record { key = codes "s4"; value = codes "20"; line = 3 } ∷ []

abbrev padded_config : TunnelConfig
padded_config = record site_config { mtu = 1400; s4 = 20 }

padded_accepted : parse_rest upstream 1420 false padded ≡ ok padded_config
unfolding parse_rest per_packet_overhead overhead_onto atoi_positive digits_onto choose_mtu safe_mtu
    finalize unmap is_loopback
padded_accepted = refl

parse_rest-fits_example :
    (padded_config.mtu + (per_packet_overhead padded).0 + (per_packet_overhead padded).1
      ≤ default_mtu)
    ⊎ (padded_config.mtu ≡ min_safe_mtu)
parse_rest-fits_example = parse_rest-fits upstream 1420 padded padded_config padded_accepted

-- Two answers of the device, before and after a change of its key.
abbrev dump : Text
dump = codes "private_key=aa\nlisten_port=5\n"

abbrev other_dump : Text
other_dump = codes "private_key=bb\nlisten_port=5\n"

same_public : public_lines (split 10 dump) ≡ public_lines (split 10 other_dump)
unfolding split cut trim_space is_secret is_in
same_public = refl

abbrev device : Device
device = record { applied = some site_config; primed = none }

-- The tunnel after a start.
abbrev pub up_tunnel : Tunnel
up_tunnel = record (new_tunnel (some site_config)) {
  device = some device;
  running = true;
  supervised = true;
  channels = 2;
  ready = 1;
}

abbrev pub all_well : BuildAnswers
all_well = record { create_tun = none; uapi = rendered (codes "jc=4"); ipc_set = none; up = none }

abbrev pub reload_answers : ReloadAnswers
reload_answers = record {
  dry = all_well;
  prev_uapi = rendered (codes "jc=4");
  next_uapi = rendered (codes "jc=5");
  ipc_next = none;
  ipc_restore = none;
  rebuild = all_well;
  restore = all_well;
  now = 0;
}

up_tunnel-Runs : Runs site_config up_tunnel
unfolding new_tunnel
up_tunnel-Runs = record { is_running = refl; configured = refl; on_device = (device, refl, refl) }

abbrev other_config : TunnelConfig
other_config = record site_config { mtu = 1300 }

reload-Outcome_example :
    Outcome site_config other_config up_tunnel (reload reload_answers (some other_config) up_tunnel)
reload-Outcome_example =
    reload-Outcome reload_answers site_config other_config up_tunnel up_tunnel-Runs

abbrev no_parser : Text → Option Addr
no_parser s = none

-- An answer of the device without a handshake.
silent : read_stats (some []) up_tunnel ≡ some none
unfolding read_stats parse_uapi_get new_tunnel parse_lines split parse_line trim_space
    last_handshake
silent = refl

supervise-handshakes_example :
    up_tunnel.handshakes
    < (run_ticks ((91 * second, some []) ∷ []) (new_supervisor 0) up_tunnel).1.handshakes
supervise-handshakes_example =
    supervise-handshakes ((91 * second, some []) ∷ []) 0 (new_supervisor 0) up_tunnel (begins 0)
      ((none, silent, refl), tt) (inl (omega arith))

abbrev stays_up : Round
stays_up = record {
  before = up_tunnel;
  after = record up_tunnel { ready_closed = true; state = connected };
}

abbrev wait : Wait
wait = record {
  rounds = stays_up ∷ [];
  last = stays_up;
  reason = codes "context deadline exceeded";
}

abbrev world : World
world = record {
  waits = λ n. wait;
  stack_dials = λ n target. none;
  stack_listens = λ ipv6. none;
  now = 0;
  queried = λ host. ok [];
}

abbrev down_tunnel : Tunnel
down_tunnel = new_tunnel (some site_config)

abbrev site : Destination
site = record { host = codes "example.org"; addr = v4 (0 ∷ 0 ∷ 0 ∷ 0 ∷ []); port = 443 }

site_is_named : has_dns down_tunnel ≡ true
unfolding has_dns new_tunnel
site_is_named = refl

down_tunnel-is_down : down_tunnel.running ≡ false
unfolding new_tunnel
down_tunnel-is_down = refl

abbrev same : ℕ → ℕ
same c = c

dialer_of-refuses_example :
    ((connect same (dialer_of world down_tunnel) zero_stats site).outcome
      ≡ err rep_network_unreachable)
    × ((connect same (dialer_of world down_tunnel) zero_stats site).stats.no_name ≡ 0)
dialer_of-refuses_example =
    dialer_of-refuses same world down_tunnel zero_stats site down_tunnel-is_down
      (inl ((λ e. cc), site_is_named))

stays_up-IsWoken : IsWoken stays_up
unfolding new_tunnel
stays_up-IsWoken = refl

dial_tcp-Seen_example :
    (((dial_tcp none wait up_tunnel).1 ≡ true)
      × (up_tunnel.running ≡ true)
      × (up_tunnel.device ≢ none)
      × Seen (stays_up ∷ []) stays_up)
    ⊎ (((dial_tcp none wait up_tunnel).1 ≡ false) × SaysDown (dial_tcp none wait up_tunnel).0)
dial_tcp-Seen_example = dial_tcp-Seen none wait up_tunnel (stays_up-IsWoken, tt)

abbrev unanswered : ℕ → Attempt
unanswered n = record { ended = false; stack = ok (codes "192.0.2.7" ∷ []); local = ok [] }

lookup_uncached-KeepsTo_example :
    KeepsTo [] 3 (lookup_uncached no_parser wait unanswered up_tunnel).0
unfolding new_tunnel
lookup_uncached-KeepsTo_example = lookup_uncached-KeepsTo no_parser wait unanswered up_tunnel
