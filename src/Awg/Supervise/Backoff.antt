-- ===== src/Awg/Supervise/Backoff.antt =====
-- How long the supervisor waits before it starts a handshake.
use awgsocks.Base.{
  ℕ, suc, ◌+◌, ◌*◌, ◌≤◌, ◌<◌, ◌≡◌, ◌⊎◌, arith, false, List, [], ◌∷◌, Option, some, inl, inr,
  Option-cases,
}
use awgsocks.Strings.{Text}
use awgsocks.Awg.State.{Tunnel, Device, mark_not_ready, kick_handshake}
use awgsocks.Awg.Supervise.{
  Supervisor, new_supervisor, read_stats, is_healthy, noticed, due, sampled, read_with, tick,
  second, max_backoff,
}

-- The longest wait: half of the time after which a handshake is stale.
abbrev pub longest_wait : ℕ
longest_wait = 90 * second

-- A supervisor at a time of its life, whatever the device and the tunnel were at its ticks. A request to
-- reconnect puts it back to its beginning.
pub data IsSupervising : ℕ → Supervisor → Type 0 where
  begins : (now : ℕ) → IsSupervising now (new_supervisor now)
  ticks :
      {now : ℕ} {s : Supervisor} (now' : ℕ) (raw : Option Text) (t : Tunnel)
      → IsSupervising now s
      → now ≤ now'
      → IsSupervising now' (tick now' raw s t).0

-- A tick that finds no handshake, or only a stale one.
abbrev pub IsSick : ℕ → Option Text → Tunnel → Type 0
IsSick now raw t =
    (handshake : Option ℕ) × (read_stats raw t ≡ some handshake)
    × (is_healthy now handshake ≡ false)

-- A run of ticks: the times and what the device answers.
abbrev pub run_ticks : List (ℕ × Option Text) → Supervisor → Tunnel → Supervisor × Tunnel
run_ticks [] s t = (s, t)
run_ticks ((now, raw) ∷ rest) s t = run_ticks rest (tick now raw s t).0 (tick now raw s t).1

abbrev pub AreSick : List (ℕ × Option Text) → Supervisor → Tunnel → Type 0
AreSick [] s t = Unit
AreSick ((now, raw) ∷ rest) s t =
    IsSick now raw t × AreSick rest (tick now raw s t).0 (tick now raw s t).1

-- One of the ticks is at this time or later.
abbrev pub Reaches : ℕ → List (ℕ × Option Text) → Type 0
Reaches at [] = ⊥
Reaches at ((now, raw) ∷ rest) = (at ≤ now) ⊎ Reaches at rest

abbrev IsTimely : ℕ → Supervisor → Type 0
IsTimely now s = (s.next_kick ≤ now + longest_wait) × (s.backoff ≤ max_backoff)

tick-IsTimely :
    (now now' : ℕ) (raw : Option Text) (s : Supervisor) (t : Tunnel)
    → now ≤ now'
    → IsTimely now s
    → IsTimely now' (tick now' raw s t).0
unfolding tick read_with sampled noticed due
tick-IsTimely now now' raw s t later h = ground arith

IsSupervising-IsTimely : {now : ℕ} {s : Supervisor} → IsSupervising now s → IsTimely now s
IsSupervising-IsTimely (begins now) = omega arith
IsSupervising-IsTimely (ticks {now} {s} now' raw t before later) =
    tick-IsTimely now now' raw s t later (IsSupervising-IsTimely before)

read_stats-device :
    (raw : Option Text) (t : Tunnel) (handshake : Option ℕ)
    → read_stats raw t ≡ some handshake
    → (d : Device) × (t.device ≡ some d)
unfolding read_stats
read_stats-device raw t handshake e = elim (Option-cases t.device) [
  | inl gone ↦ absurd (ground arith)
  | inr found ↦ found
]

mark_not_ready-handshakes :
    (t : Tunnel)
    → ((mark_not_ready t).handshakes ≡ t.handshakes) × ((mark_not_ready t).device ≡ t.device)
unfolding mark_not_ready
mark_not_ready-handshakes t = ground arith

-- A tick without a fresh handshake starts one, or it comes before the time that is set for the next.
sick-tick :
    (now : ℕ) (raw : Option Text) (s : Supervisor) (t : Tunnel)
    → IsSick now raw t
    → ((tick now raw s t).1.handshakes ≡ suc t.handshakes)
      ⊎ (((tick now raw s t).1.handshakes ≡ t.handshakes)
          × (now < s.next_kick)
          × ((tick now raw s t).0.next_kick ≡ s.next_kick))
unfolding tick read_with sampled noticed due kick_handshake
sick-tick now raw s t (handshake, read, sick) =
    let (d, has) = read_stats-device raw t handshake read in
    ground (arith, mark_not_ready-handshakes t)

run_ticks-handshakes :
    (events : List (ℕ × Option Text)) (s : Supervisor) (t : Tunnel)
    → AreSick events s t
    → t.handshakes ≤ (run_ticks events s t).1.handshakes
run_ticks-handshakes [] s t h = omega arith
run_ticks-handshakes ((now, raw) ∷ rest) s t (sick, later) =
    let (s', t') = tick now raw s t in
    omega (arith, sick-tick now raw s t sick, run_ticks-handshakes rest s' t' later)

run_ticks-due :
    (events : List (ℕ × Option Text)) (s : Supervisor) (t : Tunnel) (at : ℕ)
    → AreSick events s t
    → s.next_kick ≤ at
    → Reaches at events
    → t.handshakes < (run_ticks events s t).1.handshakes
run_ticks-due [] s t at h soon r = absurd r
run_ticks-due ((now, raw) ∷ rest) s t at (sick, later) soon (inl reached) =
    let (s', t') = tick now raw s t in
    omega (arith, sick-tick now raw s t sick, run_ticks-handshakes rest s' t' later)
run_ticks-due ((now, raw) ∷ rest) s t at (sick, later) soon (inr more) =
    let (s', t') = tick now raw s t in
    elim (sick-tick now raw s t sick) [
      | inl kicked ↦ omega (arith, kicked, run_ticks-handshakes rest s' t' later)
      | inr (waits, early, same) ↦
          omega (arith, waits, run_ticks-due rest s' t' at later (omega (arith, same)) more)
    ]

-- Whatever came before, ninety seconds of ticks in which the device reports no handshake, or only a stale
-- one, are enough for the supervisor to start one.
pub supervise-handshakes :
    (events : List (ℕ × Option Text)) (now : ℕ) (s : Supervisor) (t : Tunnel)
    → IsSupervising now s
    → AreSick events s t
    → Reaches (now + longest_wait) events
    → t.handshakes < (run_ticks events s t).1.handshakes
supervise-handshakes events now s t life sick reached =
    run_ticks-due events s t (now + longest_wait) sick (IsSupervising-IsTimely life).0 reached
