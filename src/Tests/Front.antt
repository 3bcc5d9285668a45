-- ===== src/Tests/Front.antt =====
-- Sessions, requests and the listener of internal/socks5.
use awgsocks.Base.{
  length, ℕ, ◌≡◌, ◌↔◌, refl, true, false, [], ◌∷◌, ◌++◌, Option, none, some, Bytes, codes, ok, err,
  All, arith, pos,
}
use awgsocks.Netip.{Addr, AddrPort, v4, unmap, is_unspecified, is_loopback}
use awgsocks.Socks5.Target.{Target, ipv4, domain, meaning}
use awgsocks.Socks5.Failure.{GoError, reply_for_error}
use awgsocks.Socks5.Session.{
  read_dest, read_name, read_dest_port, write_reply, Conn, negotiate, read_request, read_full,
  offer,
}
use awgsocks.Socks5.Session.Greeting.{IsGreeting, negotiate_iff}
use awgsocks.Socks5.Session.Request.{IsRequest, read_request_iff, request}
use awgsocks.Socks5.Stats.{zero_stats}
use awgsocks.Socks5.Connect.{Dialer, connect, connect_found, routable, finish, dial_all}
use awgsocks.Socks5.Connect.Outcome.{FirstReachable, candidates, connect_iff, IsDown}
use awgsocks.Socks5.Handle.{serve_connect, Surroundings, handle, client_sends}
use awgsocks.Socks5.Handle.Allowed.{MayUse, handle-MayUse}
use awgsocks.Socks5.Handle.Answers.{IsConnect, IsAnswered, handle-connect}
use awgsocks.Socks5.Listener.{Listener, start, new_listener, accept, release_slot, untrack, tracks}
use awgsocks.Socks5.Listener.Bounded.{Loop, Reach, loop_of, here, next, accepts, releases}
use awgsocks.Socks5.Listener.Limits.{start-IsServing, IsServing}

abbrev same_rune : ℕ → ℕ
same_rune c = c

-- A parser that knows no text form.
abbrev no_text : Bytes → Option Addr
no_text s = none

abbrev resolver_down : GoError
resolver_down = record {
  tunnel_down = true;
  not_ready = false;
  no_dns = false;
  deadline_exceeded = false;
  canceled = false;
  message = codes "the AmneziaWG tunnel is not running";
}

abbrev web : Bytes
web = 93 ∷ 184 ∷ 216 ∷ 34 ∷ []

abbrev blocked : Bytes
blocked = 0 ∷ 0 ∷ 0 ∷ 0 ∷ []

-- Names resolve to a blocked address and a real one; every dial succeeds.
abbrev up : Dialer
up = record {
  has_dns = true;
  lookup_host = λ h. ok (v4 blocked ∷ v4 web ∷ []);
  dial_tcp = λ n t. none;
  listen_udp = λ v. none;
}

abbrev down : Dialer
down = record {
  has_dns = true;
  lookup_host = λ h. err resolver_down;
  dial_tcp = λ n t. some resolver_down;
  listen_udp = λ v. some resolver_down;
}

abbrev local_port : AddrPort
local_port = record { addr = v4 (127 ∷ 0 ∷ 0 ∷ 1 ∷ []); port = 10808 }

abbrev around : Dialer → Surroundings
around d = record {
  dialer = d;
  udp_enabled = true;
  now = 0;
  listen_fails = none;
  bound = local_port;
  traffic =
      client_sends d (some 3) 1 local_port (0 ∷ 0 ∷ 0 ∷ 1 ∷ 1 ∷ 1 ∷ 1 ∷ 1 ∷ 0 ∷ 53 ∷ 7 ∷ 8 ∷ 9 ∷ [])
      ∷ [];
  uploaded = 100;
  downloaded = 2000;
}

-- A greeting, a CONNECT to example.org:443 and the client's first bytes.
abbrev site : Target
site = domain (codes "example.org")

abbrev asks : Conn
asks = record {
  input = 5 ∷ 1 ∷ 0 ∷ (request 1 0 site 443 ++ (22 ∷ 3 ∷ []));
  output = [];
  broken = false;
  expired = false;
}

-- A greeting and a UDP ASSOCIATE with no declared address.
abbrev associates : Conn
associates = record asks { input = 5 ∷ 1 ∷ 0 ∷ request 3 0 (ipv4 blocked) 0 }

abbrev greeted : Conn
greeted = record asks { input = request 1 0 site 443 ++ (22 ∷ 3 ∷ []); output = 5 ∷ 0 ∷ [] }

asks-IsConnect : IsConnect asks site 443 (22 ∷ 3 ∷ [])
asks-IsConnect = record {
  methods = 0 ∷ [];
  rsv = 0;
  sent = refl;
  some_method = omega arith;
  no_auth = refl;
  is_target = omega arith;
  pos = omega arith;
  small = omega arith;
  writable = refl;
  fresh = refl;
}

handle-MayUse_example :
    All (MayUse (around up)) (handle same_rune no_text (around up) zero_stats asks).egress
handle-MayUse_example = handle-MayUse (around up) same_rune no_text zero_stats asks

handle-connect_example :
    IsAnswered up asks
      (22 ∷ 3 ∷ [])
      (connect same_rune up zero_stats (meaning no_text site 443))
      (handle same_rune no_text (around up) zero_stats asks)
handle-connect_example =
    handle-connect same_rune no_text (around up) zero_stats asks site 443 (22 ∷ 3 ∷ [])
      asks-IsConnect

-- The whole answer, run: success, from the first address that is not blocked.
handle_run :
    (handle same_rune no_text (around up) zero_stats asks).conn.output
    ≡ 5 ∷ 0 ∷ 5 ∷ 0 ∷ 0 ∷ 1 ∷ 93 ∷ 184 ∷ 216 ∷ 34 ∷ 1 ∷ 187 ∷ []
unfolding handle negotiate read_full offer read_request read_dest read_name read_dest_port
    serve_connect connect connect_found routable unmap is_unspecified finish dial_all write_reply
handle_run = refl

handle_run_down :
    (handle same_rune no_text (around down) zero_stats asks).conn.output
    ≡ 5 ∷ 0 ∷ 5 ∷ 3 ∷ 0 ∷ 1 ∷ 0 ∷ 0 ∷ 0 ∷ 0 ∷ 0 ∷ 0 ∷ []
unfolding handle negotiate read_full offer read_request read_dest read_name read_dest_port
    serve_connect connect connect_found write_reply reply_for_error
handle_run_down = refl

connect_iff_example :
    ((connect same_rune up zero_stats (meaning no_text site 443)).outcome
      ≡ ok (record { addr = v4 web; port = 443 }))
    ↔ FirstReachable up 0 443
        (candidates up (meaning no_text site 443))
        (record { addr = v4 web; port = 443 })
connect_iff_example =
    connect_iff up same_rune zero_stats (meaning no_text site 443)
      (record { addr = v4 web; port = 443 })

down-IsDown : IsDown down same_rune
down-IsDown = record {
  dials = λ n t. (resolver_down, refl, refl);
  lookups = λ h. (resolver_down, refl, refl);
}

negotiate_iff_example : (negotiate asks ≡ (greeted, ok tt)) ↔ IsGreeting asks greeted
negotiate_iff_example = negotiate_iff asks greeted

read_request_iff_example :
    (read_request no_text greeted
      ≡ (record greeted { input = 22 ∷ 3 ∷ [] }, ok (1, meaning no_text site 443)))
    ↔ IsRequest no_text greeted
        (record greeted { input = 22 ∷ 3 ∷ [] })
        1
        (meaning no_text site 443)
read_request_iff_example =
    read_request_iff no_text greeted (record greeted { input = 22 ∷ 3 ∷ [] }) 1
      (meaning no_text site 443) (omega arith)

-- A listener with room for one session.
abbrev started : Listener
started = record {
  max_conns = 1;
  stats = zero_stats;
  slots = 0;
  sessions = [];
  errors = 0;
  running = true;
  bound = true;
  started = true;
  closing = false;
}

start_run : start (some local_port) true (new_listener (pos 1) zero_stats) ≡ some started
unfolding start new_listener is_loopback
start_run = refl

abbrev peer : Option Addr
peer = some local_port.addr

-- A second connection is accepted while the first is still in the map.
abbrev overlapping : Loop
overlapping = record {
  server = accept 8 peer (release_slot (accept 7 peer started));
  served = 8 ∷ [];
  released = 7 ∷ [];
  uncounted = [];
}

overlap_run : Reach (loop_of started) overlapping
unfolding accept release_slot is_loopback unmap untrack tracks
overlap_run = next (next (next here (accepts 7 peer refl)) (releases 7 refl)) (accepts 8 peer refl)

two_in_map : length overlapping.server.sessions ≡ 2
unfolding accept release_slot is_loopback unmap
two_in_map = refl

start-IsServing_example : IsServing (pos 1) local_port overlapping
start-IsServing_example = start-IsServing (pos 1) local_port true start_run overlap_run
