-- ===== src/Socks5/Relay/Claim.antt =====
-- Who may use a relay.
use awgsocks.Base.{◌≡◌, ◌↔◌, true, false, arith, if◌then◌else◌}
use awgsocks.Netip.{AddrPort, is_loopback, unmap, equal_addr_port_iff}
use awgsocks.Socks5.Relay.{Relay, is_unclaimed, accept_from}

abbrev pub IsLocal : AddrPort → Type 0
IsLocal a = is_loopback (unmap a.addr) ≡ true

-- A relay that somebody has claimed takes exactly the datagrams of its owner, if that is on this
-- machine, and is left as it is.
pub accept_from-claimed :
    (from : AddrPort) (r : Relay)
    → is_unclaimed r.expect ≡ false
    → (((accept_from from r).0 ≡ true) ↔ (IsLocal from × (r.expect ≡ from)))
      × ((accept_from from r).1 ≡ r)
unfolding accept_from
accept_from-claimed from r h = ground (arith, equal_addr_port_iff r.expect from)

-- A relay that nobody has claimed takes any datagram from this machine, and none else; its sender is
-- then the owner.
pub accept_from-unclaimed :
    (from : AddrPort) (r : Relay)
    → is_unclaimed r.expect ≡ true
    → (((accept_from from r).0 ≡ true) ↔ IsLocal from)
      × ((accept_from from r).1
          ≡ (if (accept_from from r).0 then record r { expect = from } else r))
unfolding accept_from
accept_from-unclaimed from r h = ground arith
