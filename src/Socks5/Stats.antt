-- ===== src/Socks5/Stats.antt =====
-- internal/socks5/server.go: the counters of `Server`. The `atomic.Int64` counters move by one from
-- 0 and are plain numbers here; the `atomic.Uint64` counters wrap.
use awgsocks.Base.{ℕ, ◌+◌, ◌%◌, ◌^◌}

pub record Stats : Type 0 where
  pub active : ℕ
  pub total : ℕ
  pub rejected : ℕ
  pub failed : ℕ
  pub hostname : ℕ
  pub no_name : ℕ
  pub tx : ℕ
  pub rx : ℕ
  pub udp_assoc : ℕ
  pub udp_sent : ℕ
  pub udp_received : ℕ
  pub udp_dropped : ℕ
  pub udp_bytes_up : ℕ
  pub udp_bytes_down : ℕ

abbrev pub u64 : ℕ
u64 = 2 ^ 64

-- `Add` on an `atomic.Uint64`.
abbrev pub add_u64 : ℕ → ℕ → ℕ
add_u64 a b = (a + b) % u64

abbrev pub zero_stats : Stats
zero_stats = record {
  active = 0;
  total = 0;
  rejected = 0;
  failed = 0;
  hostname = 0;
  no_name = 0;
  tx = 0;
  rx = 0;
  udp_assoc = 0;
  udp_sent = 0;
  udp_received = 0;
  udp_dropped = 0;
  udp_bytes_up = 0;
  udp_bytes_down = 0;
}

abbrev pub count_no_name : Stats → Stats
count_no_name s = record s { no_name = s.no_name + 1 }

abbrev pub count_failed : Stats → Stats
count_failed s = record s { failed = s.failed + 1 }
