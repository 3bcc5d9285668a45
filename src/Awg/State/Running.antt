-- ===== src/Awg/State/Running.antt =====
-- When a start brings the tunnel up.
use awgsocks.Base.{
  ℕ, ◌≡◌, ◌⊎◌, refl, arith, true, false, List, Bytes, none, some, inl, inr, Result, ok, err,
}
use awgsocks.Config.Finalize.{TunnelConfig}
use awgsocks.Socks5.Failure.{GoError}
use awgsocks.Awg.State.{
  failed, Tunnel, Device, BuildAnswers, start, started, start_begin, start_end, begin_with,
  build_device, kick_handshake, kick_device,
}

-- The tunnel runs with this configuration, and its device has applied it.
pub record Runs (c : TunnelConfig) (t : Tunnel) : Type 0 where
  pub is_running : t.running ≡ true
  pub configured : t.cfg ≡ some c
  pub on_device : (d : Device) × (t.device ≡ some d) × (d.applied ≡ some c)

-- The tunnel is down because a start has failed.
pub record HasFailed (c : TunnelConfig) (t : Tunnel) : Type 0 where
  pub is_down : t.running ≡ false
  pub configured : t.cfg ≡ some c
  pub says_so : t.state ≡ failed

pub build_device-applied :
    (w : BuildAnswers) (c : TunnelConfig) (d : Device) (keys : List Bytes)
    → build_device w c ≡ ok (d, keys)
    → d.applied ≡ some c
unfolding build_device
build_device-applied w c d keys e = ground arith

start_end-Runs :
    (now : ℕ) (c : TunnelConfig) (built : Result GoError (Device × List Bytes)) (t : Tunnel)
    → ((d : Device) (keys : List Bytes) → built ≡ ok (d, keys) → d.applied ≡ some c)
    → t.running ≡ false
    → t.cfg ≡ some c
    → (((start_end now built t).0 ≡ none) × Runs c (start_end now built t).1)
      ⊎ ((e : GoError) × ((start_end now built t).0 ≡ some e)
          × HasFailed c (start_end now built t).1)
unfolding start_end kick_handshake kick_device
start_end-Runs now c (err e) t made down has =
    inr (e, refl, record { is_down = down; configured = has; says_so = refl })
start_end-Runs now c (ok (d, keys)) t made down has =
    inl (
      refl,
      record { is_running = refl; configured = has; on_device = (d, refl, made d keys refl) },
    )

-- A start of a tunnel that is down ends in a tunnel that runs, or has failed and reports it.
pub start-Runs :
    (w : BuildAnswers) (now : ℕ) (t : Tunnel) (c : TunnelConfig)
    → t.running ≡ false
    → t.cfg ≡ some c
    → (((start w now t).0 ≡ none) × Runs c (start w now t).1)
      ⊎ ((e : GoError) × ((start w now t).0 ≡ some e) × HasFailed c (start w now t).1)
unfolding start started start_begin begin_with
start-Runs w now t c down has =
    rw (down, has) (start_end-Runs now c (build_device w c) _ (build_device-applied w c) refl refl)
