-- ===== src/Config/Parse.antt =====
-- internal/config/tunnel.go: `perPacketOverhead`, and `ParseTunnel` behind the upstream parser, from the
-- choice of the MTU on.
use awgsocks.Base.{
  ℕ, ◌+◌, ◌≤◌, ◌≡◌, ◌⊎◌, arith, Bool, false, List, [], ◌∷◌, Option, none, some, codes, ltb, ◌&&◌,
  ◌^◌, ◌==◌, equal, if◌then◌else◌, Result, ok,
}
use awgsocks.Strings.{Text}
use awgsocks.Config.Scan.{Kv}
use awgsocks.Config.Values.{decimal, RangeResult, range, no_range, parse_uint_range}
use awgsocks.Config.Mtu.{choose_mtu, choose_mtu_lem, safe_mtu-bounds, default_mtu, min_safe_mtu}
use awgsocks.Config.Finalize.{UpstreamConfig, TunnelConfig, FinalizeError, finalize}
use awgsocks.Config.Finalize.Sound.{unfinished, finalize-IsComplete}

-- `strconv.Atoi`, where it is positive and fits 64 bits.
positive_of : Option ℕ → Option ℕ
positive_of none = none
positive_of (some n) = if ltb 0 n && ltb n (2 ^ 63) then some n else none

unfoldable pub atoi_positive : Text → Option ℕ
unfolding positive_of
atoi_positive [] = none
atoi_positive (c ∷ s) = positive_of (decimal (if c == b'+' then s else c ∷ s))

prefix_or : ℕ → Option ℕ → ℕ
prefix_or s4 none = s4
prefix_or s4 (some n) = n

padding_or : ℕ → RangeResult → ℕ
padding_or cpa (range lo hi) = hi
padding_or cpa (no_range e) = cpa

-- The loop in `perPacketOverhead`.
unfoldable pub overhead_onto : ℕ × ℕ → List Kv → ℕ × ℕ
unfolding prefix_or padding_or
overhead_onto sum [] = sum
overhead_onto (s4, cpa) (e ∷ es) =
    overhead_onto
      (if equal e.key (codes "s4")
        then (prefix_or s4 (atoi_positive e.value), cpa)
        else if equal e.key (codes "contentpaddingaddition")
        then (s4, padding_or cpa (parse_uint_range 32 e.value))
        else (s4, cpa))
      es

unfoldable pub per_packet_overhead : List Kv → ℕ × ℕ
per_packet_overhead iface = overhead_onto (0, 0) iface

-- The end of `ParseTunnel`: `c` and `configured` are the upstream parser's, `explicit` is whether the
-- interface has the key `mtu`. The warnings that come before `finalize` are left out.
unfoldable pub parse_rest : UpstreamConfig → ℕ → Bool → List Kv → Result FinalizeError TunnelConfig
parse_rest c configured explicit iface =
    let (s4, cpa) = per_packet_overhead iface in
    finalize (unfinished c (choose_mtu configured explicit s4 cpa).0 s4)

-- A tunnel configuration that is accepted and names no MTU gets one that leaves room, under 1420, for the
-- bytes that the S4 prefix and the content padding of its interface add to a packet, or else 1280.
pub parse_rest-fits :
    (c : UpstreamConfig) (configured : ℕ) (iface : List Kv) (t : TunnelConfig)
    → parse_rest c configured false iface ≡ ok t
    → (t.mtu + (per_packet_overhead iface).0 + (per_packet_overhead iface).1 ≤ default_mtu)
      ⊎ (t.mtu ≡ min_safe_mtu)
unfolding parse_rest
parse_rest-fits c configured iface t e =
    let (s4, cpa) = per_packet_overhead iface in
    let complete = finalize-IsComplete c (choose_mtu configured false s4 cpa).0 s4 t e in
    ground (
      arith,
      complete.sorted.same_mtu,
      (choose_mtu_lem configured false s4 cpa).0,
      safe_mtu-bounds s4 cpa,
    )
