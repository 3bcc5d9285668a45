-- ===== src/Awg/Dial/Down.antt =====
-- What a request meets while the tunnel is not running.
use awgsocks.Base.{
  ℕ, ◌≡◌, ◌≢◌, ◌⊎◌, refl, arith, true, false, List, [], Option, some, Bytes, err, Result,
}
use awgsocks.Netip.{Addr, unmap, is_unspecified}
use awgsocks.Socks5.Target.{Destination}
use awgsocks.Socks5.Failure.{GoError, rep_network_unreachable}
use awgsocks.Socks5.Stats.{Stats}
use awgsocks.Socks5.Connect.{connect}
use awgsocks.Socks5.Connect.Outcome.{IsDown, connect-IsDown}
use awgsocks.Awg.State.{Tunnel, tunnel_down_error}
use awgsocks.Awg.Dial.{Wait, World, dialer_of, dial_tcp, lookup_host, has_dns}

dial_tcp-down :
    (stack : Option GoError) (w : Wait) (t : Tunnel)
    → t.running ≡ false
    → dial_tcp stack w t ≡ (some tunnel_down_error, false)
unfolding dial_tcp
dial_tcp-down stack w t down = rw down

lookup_host-down :
    (now : ℕ) (host : Bytes) (queried : Result GoError (List Addr)) (t : Tunnel)
    → t.running ≡ false
    → (lookup_host now host queried t).0 ≡ err tunnel_down_error
unfolding lookup_host
lookup_host-down now host queried t down = ground arith

dialer_of-IsDown :
    (lower_other : ℕ → ℕ) (w : World) (t : Tunnel)
    → t.running ≡ false
    → IsDown (dialer_of w t) lower_other
unfolding dialer_of
dialer_of-IsDown lower_other w t down = record {
  dials = λ n target. (
    tunnel_down_error,
    ground (arith, dial_tcp-down (w.stack_dials n target) (w.waits n) t down),
    refl,
  );
  lookups = λ host. (tunnel_down_error, lookup_host-down w.now host (w.queried host) t down, refl);
}

-- While the tunnel is not running, whatever the stack, the cache and the waits would answer, a request
-- for a name, with DNS configured, or for an address that is not 0.0.0.0 or :: is told "network
-- unreachable", and does not count as unresolved.
pub dialer_of-refuses :
    (lower_other : ℕ → ℕ) (w : World) (t : Tunnel) (s : Stats) (dest : Destination)
    → t.running ≡ false
    → ((dest.host ≢ []) × (has_dns t ≡ true))
      ⊎ ((dest.host ≡ []) × (is_unspecified (unmap dest.addr) ≡ false))
    → ((connect lower_other (dialer_of w t) s dest).outcome ≡ err rep_network_unreachable)
      × ((connect lower_other (dialer_of w t) s dest).stats.no_name ≡ s.no_name)
unfolding dialer_of
dialer_of-refuses lower_other w t s dest down known =
    connect-IsDown (dialer_of w t) lower_other s dest (dialer_of-IsDown lower_other w t down) known
