-- ===== src/Awg/Dial.antt =====
-- internal/awg/tunnel.go: `WaitReady`, `DialTCP`, `ListenUDP`, `LookupHost` and `HasDNS`. A call sees
-- the tunnel at several moments; what it sees comes with the call.
pub mod Ready
pub mod Down
use awgsocks.Base.{
  ℕ, suc, ◌+◌, Bool, true, false, not, ◌&&◌, ◌||◌, List, [], ◌∷◌, ◌++◌, Option, none, some, Bytes,
  codes, ◌==◌, if◌then◌else◌, Result, ok, err,
}
use awgsocks.Strings.{Text}
use awgsocks.Netip.{Addr, AddrPort}
use awgsocks.Config.Finalize.{TunnelConfig, address_of_family}
use awgsocks.Socks5.Failure.{GoError}
use awgsocks.Socks5.Connect.{Dialer}
use awgsocks.Dns
use awgsocks.Dns.{Answer, hit, join, ask}
use awgsocks.Awg.State.{
  State, stopped, connecting, connected, reconnecting, failed, Tunnel, Device, tunnel_down_error,
  not_ready_error, no_dns_error, no_route_error, wrap,
}

-- One round of the loop in `WaitReady`: the tunnel when the channel is read, and when the wait ends.
pub record Round : Type 0 where
  pub before : Tunnel
  pub after : Tunnel

-- A call of `WaitReady`: the rounds that the closing of the channel ends, and the one that the
-- context's end ends, if it comes to that, with the context's error.
pub record Wait : Type 0 where
  pub rounds : List Round
  pub last : Round
  pub reason : Text

abbrev pub is_connected : State → Bool
is_connected connected = true
is_connected stopped = false
is_connected connecting = false
is_connected reconnecting = false
is_connected failed = false

unfoldable pub wait_ready : List Round → Round → Text → Option GoError
wait_ready [] r reason =
    if not r.before.running
    then some tunnel_down_error
    else if is_connected r.after.state
    then none
    else some (not_ready_error reason)
wait_ready (r ∷ rounds) last reason =
    let again = wait_ready rounds last reason in
    if not r.before.running
    then some tunnel_down_error
    else if not r.after.running
    then some tunnel_down_error
    else if r.after.ready == r.before.ready
    then none
    else again

-- The check at the start of a call, for the network stack.
stack_of : Bool → Option Device → Option Device
stack_of true d = d
stack_of false d = none

-- A call that needs the stack: its error, and whether the stack was used. `use_stack` is the error of
-- the stack, behind the text that goes before it.
with_stack : Text → Option GoError → Wait → Option Device → Option GoError × Bool
with_stack prefix use_stack w none = (some tunnel_down_error, false)
with_stack prefix use_stack w (some d) = elim (wait_ready w.rounds w.last w.reason) [
  | some e ↦ (some e, false)
  | none ↦ elim use_stack [ none ↦ (none, true) | some e ↦ (some (wrap prefix e), true) ]
]

-- `DialTCP`. The address in the error's text is left out.
unfoldable pub dial_tcp : Option GoError → Wait → Tunnel → Option GoError × Bool
unfolding with_stack stack_of
dial_tcp use_stack w t =
    with_stack (codes "could not reach it through the tunnel: ") use_stack w
      (stack_of t.running t.device)

-- `familyName`.
abbrev family_name : Bool → Text
family_name true = codes "IPv6"
family_name false = codes "IPv4"

abbrev addresses_of : Option TunnelConfig → List Addr
addresses_of none = []
addresses_of (some c) = c.addresses

listen_at : Bool → Option GoError → Wait → Option Device → Option Addr → Option GoError × Bool
unfolding with_stack
listen_at ipv6 use_stack w none local = (some tunnel_down_error, false)
listen_at ipv6 use_stack w (some d) none = (some (no_route_error (family_name ipv6)), false)
listen_at ipv6 use_stack w (some d) (some a) =
    with_stack (codes "could not open an in-tunnel " ++ family_name ipv6 ++ codes " UDP socket: ")
      use_stack w (some d)

-- `ListenUDP`.
unfoldable pub listen_udp : Bool → Option GoError → Wait → Tunnel → Option GoError × Bool
unfolding listen_at stack_of
listen_udp ipv6 use_stack w t =
    listen_at ipv6 use_stack w (stack_of t.running t.device)
      (address_of_family ipv6 (addresses_of t.cfg))

abbrev some_server : List Addr → List Addr → Bool
some_server [] [] = false
some_server (d ∷ dns) local = true
some_server [] (a ∷ local) = true

-- `HasDNS`.
dns_of : Option TunnelConfig → Bool
dns_of none = false
dns_of (some c) = some_server c.dns c.local_dns

unfoldable pub has_dns : Tunnel → Bool
unfolding dns_of
has_dns t = dns_of t.cfg

-- `LookupHost`: `queried` is what the cache's query for the name is answered, if there is one.
looked_up : Dns.Start → Answer → Answer
looked_up (hit a) queried = a
looked_up join queried = queried
looked_up ask queried = queried

unfoldable pub lookup_host : ℕ → Bytes → Answer → Tunnel → Answer × Tunnel
unfolding looked_up has_dns
lookup_host now host queried t =
    if not t.running
    then (err tunnel_down_error, t)
    else if not (has_dns t)
    then (err no_dns_error, t)
    else (let (first, r) = Dns.begin now host t.resolver in
        (looked_up first queried, record t { resolver = r }))

-- The surroundings of the calls that one request makes: the waits, the stack's answers, the time, and
-- the answers to queries.
pub record World : Type 0 where
  pub waits : ℕ → Wait
  pub stack_dials : ℕ → AddrPort → Option GoError
  pub stack_listens : Bool → Option GoError
  pub now : ℕ
  pub queried : Bytes → Answer

-- The tunnel as the dialer of a request.
unfoldable pub dialer_of : World → Tunnel → Dialer
unfolding has_dns lookup_host dial_tcp listen_udp
dialer_of w t = record {
  has_dns = has_dns t;
  lookup_host = λ host. (lookup_host w.now host (w.queried host) t).0;
  dial_tcp = λ n target. (dial_tcp (w.stack_dials n target) (w.waits n) t).0;
  listen_udp = λ ipv6. (listen_udp ipv6 (w.stack_listens ipv6) (w.waits 0) t).0;
}
