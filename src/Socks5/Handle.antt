-- ===== src/Socks5/Handle.antt =====
-- internal/socks5/server.go: `handle`, one whole session, and udp.go: `handleUDPAssociate`.
pub mod Allowed
pub mod Answers
pub mod Association
use awgsocks.Base.{
  ℕ, ◌+◌, ◌-◌, Bool, true, false, not, ◌&&◌, List, [], ◌∷◌, ◌++◌, ◌≡◌, Option, none, some, Bytes,
  ◌==◌, if◌then◌else◌, Result, ok, err, equal,
}
use awgsocks.Netip.{Addr, AddrPort, no_addr_port, is_set, unmap}
use awgsocks.Socks5.Target.{Destination, cmd_connect, cmd_udp_associate}
use awgsocks.Socks5.Failure.{
  GoError, reply_for_error, rep_success, rep_general_failure, rep_network_unreachable,
  rep_command_not_supported,
}
use awgsocks.Socks5.Session.{Conn, SessionError, negotiate, read_request, write_reply}
use awgsocks.Socks5.Stats.{Stats, add_u64, count_failed}
use awgsocks.Socks5.Connect.{Dialer, Use, through, connect}
use awgsocks.Socks5.Relay.{
  Relay, NetAddr, WriteResult, new_udp_relay, warm_up, from_client, from_tunnel, watch_idle,
}

-- What happens to a relay while its association lasts.
pub data RelayEvent : Type 0 where
  client_sends : Dialer → WriteResult → ℕ → AddrPort → Bytes → RelayEvent
  tunnel_sends : Bool → ℕ → NetAddr → Bytes → RelayEvent
  ticks : ℕ → RelayEvent

-- The surroundings of one session: the tunnel, the option, the clock, the answer to the relay's
-- `net.ListenUDP` with the bound address, the relay's traffic, and the bytes that the TCP relay
-- carries each way before both sides are done.
pub record Surroundings : Type 0 where
  pub dialer : Dialer
  pub udp_enabled : Bool
  pub now : ℕ
  pub listen_fails : Option GoError
  pub bound : AddrPort
  pub traffic : List RelayEvent
  pub uploaded : ℕ
  pub downloaded : ℕ

-- The end of a session: the counters, the client's connection, the uses of the dialers, those of the relay
-- for its datagrams included, and the relay if there was one.
pub record Ending : Type 0 where
  pub stats : Stats
  pub conn : Conn
  pub egress : List Use
  pub relay : Option Relay

abbrev pub stop : Stats → Conn → Ending
stop s c = record { stats = s; conn = c; egress = []; relay = none }

-- The address that the client declared for its datagrams.
abbrev pub expected : Destination → AddrPort
expected declared =
    if equal declared.host [] && is_set declared.addr
    then record { addr = unmap declared.addr; port = declared.port }
    else no_addr_port

module _ (lower_other : ℕ → ℕ) (parse_addr : Bytes → Option Addr) where
  pub run_event : RelayEvent → Relay → Relay
  run_event (client_sends d written now from b) r = from_client parse_addr d written now from b r
  run_event (tunnel_sends works now from b) r = from_tunnel works now from b r
  run_event (ticks now) r = watch_idle now r

  pub run_events : List RelayEvent → Relay → Relay
  unfolding run_event
  run_events [] r = r
  run_events (e ∷ es) r = run_events es (run_event e r)

  -- From the counted association on: the reply, the relay's life, and the deferred decrement.
  pub associated : Surroundings → Conn → Relay → Ending
  associated w c r =
      let opened = record r { stats = record r.stats { udp_assoc = r.stats.udp_assoc + 1 } } in
      let (c', replied) = write_reply c rep_success w.bound in
      let last = if replied then run_events w.traffic opened else opened in
      record {
        stats = record last.stats { udp_assoc = last.stats.udp_assoc - 1 };
        conn = c';
        egress = last.uses;
        relay = some last;
      }

  -- `handleUDPAssociate`.
  unfoldable pub associate : Surroundings → Stats → Conn → Destination → Ending
  unfolding associated
  associate w s c declared =
      if not w.udp_enabled
      then stop s (write_reply c rep_command_not_supported no_addr_port).0
      else elim w.listen_fails [
        | some e ↦ stop (count_failed s) (write_reply c rep_general_failure no_addr_port).0
        | none ↦
            let (failed, r) = warm_up w.dialer (new_udp_relay w.now (expected declared) s) in
            elim failed [
              | some e ↦
                  let code = reply_for_error lower_other (some e) rep_network_unreachable in
                  record {
                    stats = count_failed s;
                    conn = (write_reply c code no_addr_port).0;
                    egress = r.uses;
                    relay = none;
                  }
              | none ↦ associated w c r
            ]
      ]

  -- The part of `handle` behind the request of a CONNECT.
  unfoldable pub serve_connect : Surroundings → Stats → Conn → Destination → Ending
  serve_connect w s c dest =
      let a = connect lower_other w.dialer s dest in
      elim a.outcome [
        | err code ↦ record {
          stats = count_failed a.stats;
          conn = (write_reply c code no_addr_port).0;
          egress = through w.dialer a.egress;
          relay = none;
        }
        | ok target ↦
            let (c', replied) = write_reply c rep_success target in
            let relayed = record a.stats {
              tx = add_u64 a.stats.tx w.uploaded;
              rx = add_u64 a.stats.rx w.downloaded;
            } in
            record {
              stats = if replied then relayed else a.stats;
              conn = c';
              egress = through w.dialer a.egress;
              relay = none;
            }
      ]

  -- The switch on the command.
  dispatch : Surroundings → Stats → Conn → ℕ → Destination → Ending
  dispatch w s c cmd dest =
      if cmd == cmd_connect
      then (if dest.port == 0
          then stop s (write_reply c rep_general_failure no_addr_port).0
          else serve_connect w s c dest)
      else if cmd == cmd_udp_associate
      then associate w s c dest
      else stop s (write_reply c rep_command_not_supported no_addr_port).0

  requested : Surroundings → Stats → Conn × Result SessionError (ℕ × Destination) → Ending
  requested w s (c, err e) = stop s c
  requested w s (c, ok (cmd, dest)) = dispatch w s c cmd dest

  negotiated : Surroundings → Stats → Conn × Result SessionError (Unit {0}) → Ending
  negotiated w s (c, err e) = stop s c
  negotiated w s (c, ok done) = requested w s (read_request parse_addr c)

  unfoldable pub handle : Surroundings → Stats → Conn → Ending
  unfolding dispatch requested negotiated
  handle w s c = if c.expired then stop s c else negotiated w s (negotiate c)
