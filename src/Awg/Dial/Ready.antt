-- ===== src/Awg/Dial/Ready.antt =====
-- When a call is let through to the tunnel's network stack.
use awgsocks.Base.{
  ==_iff, ◌≡◌, ◌≢◌, ◌⊎◌, refl, arith, true, false, not, ◌&&◌, ◌||◌, List, [], ◌∷◌, Option, none,
  some, inl, inr, ◌==◌, All, Bool-cases, codes,
}
use awgsocks.Strings.{Text}
use awgsocks.Socks5.Failure.{GoError}
use awgsocks.Awg.State.{Tunnel, Device}
use awgsocks.Awg.Dial.{Round, Wait, wait_ready, is_connected, dial_tcp, with_stack, stack_of}

-- A wait ends by the closing of the channel: if it is still the tunnel's channel, it is closed.
abbrev pub IsWoken : Round → Type 0
IsWoken r = (r.after.ready == r.before.ready && not r.after.ready_closed) ≡ false

-- The tunnel ran before and behind the wait, on one channel, which is closed.
abbrev pub IsOpen : Round → Type 0
IsOpen r =
    (r.before.running ≡ true)
    × (r.after.running ≡ true)
    × (r.after.ready ≡ r.before.ready)
    × (r.after.ready_closed ≡ true)

-- A round of the wait saw the tunnel run, and the channel that it waited on closed, or the last round, out
-- of time, saw it run and connected.
abbrev pub Seen : List Round → Round → Type 0
Seen [] last = (last.before.running ≡ true) × (is_connected last.after.state ≡ true)
Seen (r ∷ rounds) last = IsOpen r ⊎ Seen rounds last

-- An error that says that the tunnel is down or not ready.
abbrev pub SaysDown : Option GoError → Type 0
SaysDown none = ⊥
SaysDown (some e) = (e.tunnel_down || e.not_ready) ≡ true

woken-IsOpen :
    (r : Round)
    → IsWoken r
    → r.before.running ≡ true
    → r.after.running ≡ true
    → (r.after.ready == r.before.ready) ≡ true
    → IsOpen r
woken-IsOpen r woken up still same =
    (up, still, (==_iff r.after.ready r.before.ready).0 same, ground (arith, woken, same))

wait_ready-Seen :
    (rounds : List Round) (last : Round) (reason : Text)
    → All IsWoken rounds
    → ((wait_ready rounds last reason ≡ none) × Seen rounds last)
      ⊎ SaysDown (wait_ready rounds last reason)
unfolding wait_ready
wait_ready-Seen [] last reason woken = elim (Bool-cases last.before.running) [
  | inl up ↦ elim (Bool-cases (is_connected last.after.state)) [
    | inl live ↦ inl (ground arith, (up, live))
    | inr dead ↦ inr (rw (up, dead) refl)
  ]
  | inr down ↦ inr (rw down refl)
]
wait_ready-Seen (r ∷ rounds) last reason (woken, wokens) = elim (Bool-cases r.before.running) [
  | inl up ↦ elim (Bool-cases r.after.running) [
    | inl still ↦ elim (Bool-cases (r.after.ready == r.before.ready)) [
      | inl same ↦ inl (ground arith, inl (woken-IsOpen r woken up still same))
      | inr other ↦ elim (wait_ready-Seen rounds last reason wokens) [
        | inl (through, seen) ↦ inl (ground arith, inr seen)
        | inr why ↦ inr (rw (up, still, other) why)
      ]
    ]
    | inr stopped ↦ inr (rw (up, stopped) refl)
  ]
  | inr down ↦ inr (rw down refl)
]

refused-Seen :
    (prefix : Text) (stack : Option GoError) (w : Wait) (d : Device) (why : Option GoError)
    → wait_ready w.rounds w.last w.reason ≡ why
    → SaysDown why
    → ((with_stack prefix stack w (some d)).1 ≡ false)
      × SaysDown (with_stack prefix stack w (some d)).0
unfolding with_stack
refused-Seen prefix stack w d none e says = elim says [ ]
refused-Seen prefix stack w d (some why) e says = rw (e, with_stack) (refl, says)

with_stack-Seen :
    (prefix : Text) (stack : Option GoError) (w : Wait) (d : Option Device)
    → All IsWoken w.rounds
    → (((with_stack prefix stack w d).1 ≡ true) × (d ≢ none) × Seen w.rounds w.last)
      ⊎ (((with_stack prefix stack w d).1 ≡ false) × SaysDown (with_stack prefix stack w d).0)
unfolding with_stack
with_stack-Seen prefix stack w none woken = inr (refl, refl)
with_stack-Seen prefix stack w (some d) woken =
    elim (wait_ready-Seen w.rounds w.last w.reason woken) [
      | inl (through, seen) ↦ inl (ground arith, (λ e. ground arith), seen)
      | inr why ↦ inr (refused-Seen prefix stack w d (wait_ready w.rounds w.last w.reason) refl why)
    ]

-- Where each wait that ends before its time ends by the closing of the channel that it waits on: a call for
-- a connection uses the network stack only if the tunnel was running, with a device, when the call began,
-- and a round of the wait saw it run before and behind, with its channel closed, or the last one saw it
-- connected; otherwise it returns an error that says that the tunnel is down or not ready.
pub dial_tcp-Seen :
    (stack : Option GoError) (w : Wait) (t : Tunnel)
    → All IsWoken w.rounds
    → (((dial_tcp stack w t).1 ≡ true)
        × (t.running ≡ true)
        × (t.device ≢ none)
        × Seen w.rounds w.last)
      ⊎ (((dial_tcp stack w t).1 ≡ false) × SaysDown (dial_tcp stack w t).0)
unfolding dial_tcp stack_of
dial_tcp-Seen stack w t woken = elim (Bool-cases t.running) [
  | inr down ↦ inr (rw down (refl, refl))
  | inl up ↦
      elim (with_stack-Seen (codes "could not reach it through the tunnel: ") stack w t.device
        woken) [
          | inl (used, has, seen) ↦ inl (rw up used, up, has, seen)
          | inr why ↦ inr (rw up why)
        ]
]
