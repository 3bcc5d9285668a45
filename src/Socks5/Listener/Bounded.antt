-- ===== src/Socks5/Listener/Bounded.antt =====
-- The accept loop and its sessions, over every sequence of their steps.
use awgsocks.Base.{
  ◌==◌, ==_iff, if-case, ℕ, ◌∙◌, ◌+◌, ◌≤◌, Bool, true, false, ◌&&◌, List, [], ◌∷◌, ◌≡◌, refl, arith,
  Option, ltb, leb, if◌then◌else◌, length,
}
use awgsocks.Netip.{Addr}
use awgsocks.Socks5.Listener.{
  Listener, accept_error, accept, release_slot, uncount, untrack_conn, stop, stopped, tracks,
  untrack, is_loopback_conn, max_consecutive_errors,
}

length-untrack : (c : ℕ) (xs : List ℕ) → tracks c xs ≡ true → length (untrack c xs) + 1 ≡ length xs
unfolding untrack tracks
length-untrack c [] h = cc
length-untrack c (x ∷ xs) h = ground (arith, length-untrack c xs)

-- How often a connection is in the list.
abbrev count : ℕ → List ℕ → ℕ
count c [] = 0
count c (x ∷ xs) = (if x == c then 1 else 0) + count c xs

count-untrack :
    (c d : ℕ) (xs : List ℕ)
    → tracks d xs ≡ true
    → count c (untrack d xs) + (if d == c then 1 else 0) ≡ count c xs
unfolding untrack tracks
count-untrack c d [] h = cc h
count-untrack c d (x ∷ xs) h = ground (arith, h, count-untrack c d xs, ==_iff x d)

tracks-count : (c : ℕ) (xs : List ℕ) → tracks c xs ≡ ltb 0 (count c xs)
unfolding tracks
tracks-count c [] = ground arith
tracks-count c (x ∷ xs) = ground (arith, tracks-count c xs)

-- The listener with its sessions: those that are served, those whose deferred function is behind `<-sem`, and
-- those for which it is behind `s.statActive.Add(-1)`.
pub record Loop : Type 0 where
  pub server : Listener
  pub served : List ℕ
  pub released : List ℕ
  pub uncounted : List ℕ

abbrev pub loop_of : Listener → Loop
loop_of l = record { server = l; served = []; released = []; uncounted = [] }

-- A connection that is accepted is served.
abbrev pub serves : Option Addr → Listener → Bool
serves peer l = is_loopback_conn peer && ltb l.slots l.max_conns

-- One step of the listener. The accept loop takes one only while it runs.
pub data Step (l : Loop) : Loop → Type 0 where
  fails : l.server.running ≡ true → Step l (record l { server = accept_error l.server })
  accepts :
      (c : ℕ) (peer : Option Addr)
      → l.server.running ≡ true
      → Step l (record l {
        server = accept c peer l.server;
        served = if serves peer l.server then c ∷ l.served else l.served;
      })
  releases :
      (c : ℕ)
      → tracks c l.served ≡ true
      → Step l (record l {
        server = release_slot l.server;
        served = untrack c l.served;
        released = c ∷ l.released;
      })
  uncounts :
      (c : ℕ)
      → tracks c l.released ≡ true
      → Step l (record l {
        server = uncount l.server;
        released = untrack c l.released;
        uncounted = c ∷ l.uncounted;
      })
  forgets :
      (c : ℕ)
      → tracks c l.uncounted ≡ true
      → Step l (record l { server = untrack_conn c l.server; uncounted = untrack c l.uncounted })
  stops : Step l (record l { server = stop l.server })
  has_stopped : Step l (record l { server = stopped l.server })

pub data Reach (l : Loop) : Loop → Type 0 where
  here : Reach l l
  next : {m n : Loop} → Reach l m → Step m n → Reach l n

-- The semaphore holds a token for each session that is served, and no more than its capacity; the counter
-- still counts those that have only given back their token; and the map also holds those that have not been
-- struck off.
pub record IsBounded (l : Loop) : Type 0 where
  pub held : l.server.slots ≡ length l.served
  pub limited : length l.served ≤ l.server.max_conns
  pub counted : l.server.stats.active ≡ length l.served + length l.released
  pub mapped : length l.server.sessions ≡ length l.served + length l.released + length l.uncounted
  pub each :
      (c : ℕ)
      → count c l.server.sessions ≡ count c l.served + count c l.released + count c l.uncounted
  pub served_once : l.server.stats.active ≤ l.server.stats.total
  pub patient : l.server.errors ≤ max_consecutive_errors
  pub gave_up : (leb max_consecutive_errors l.server.errors && l.server.running) ≡ false

accept-IsBounded :
    {l : Loop} (c : ℕ) (peer : Option Addr)
    → l.server.running ≡ true
    → IsBounded l
    → IsBounded (record l {
      server = accept c peer l.server;
      served = if serves peer l.server then c ∷ l.served else l.served;
    })
unfolding accept
accept-IsBounded {l} c peer r b = record {
  held = ground (arith, b.held);
  limited = ground (arith, b.held, b.limited);
  counted = ground (arith, b.counted);
  mapped = ground (arith, b.mapped);
  each = λ x. ground (arith, b.each x);
  served_once = ground (arith, b.served_once);
  patient = ground arith;
  gave_up = ground arith;
}

fails-IsBounded :
    {l : Loop}
    → l.server.running ≡ true
    → IsBounded l
    → IsBounded (record l { server = accept_error l.server })
unfolding accept_error
fails-IsBounded {l} r b = record {
  held = ground (arith, b.held);
  limited = ground (arith, b.limited);
  counted = ground (arith, b.counted);
  mapped = ground (arith, b.mapped);
  each = λ x. ground (arith, b.each x);
  served_once = ground (arith, b.served_once);
  patient = ground (arith, b.patient, b.gave_up);
  gave_up = ground (arith, b.patient, b.gave_up);
}

is_mapped :
    {l : Loop} (c : ℕ)
    → IsBounded l
    → tracks c l.uncounted ≡ true
    → tracks c l.server.sessions ≡ true
is_mapped {l} c b h =
    ground (arith, h, b.each c, tracks-count c l.uncounted, tracks-count c l.server.sessions)

Step-IsBounded : {l m : Loop} → Step l m → IsBounded l → IsBounded m
unfolding stop stopped release_slot uncount untrack_conn
Step-IsBounded (fails r) b = fails-IsBounded r b
Step-IsBounded (accepts c peer r) b = accept-IsBounded c peer r b
Step-IsBounded {l} (releases c h) b =
    let fewer = length-untrack c l.served h in
    record {
      held = omega (arith, b.held, fewer);
      limited = omega (arith, b.limited, fewer);
      counted = omega (arith, b.counted, fewer);
      mapped = omega (arith, b.mapped, fewer);
      each = λ x. omega (arith, b.each x, count-untrack x c l.served h);
      served_once = b.served_once;
      patient = b.patient;
      gave_up = b.gave_up;
    }
Step-IsBounded {l} (uncounts c h) b =
    let fewer = length-untrack c l.released h in
    record {
      held = b.held;
      limited = b.limited;
      counted = omega (arith, b.counted, fewer);
      mapped = omega (arith, b.mapped, fewer);
      each = λ x. omega (arith, b.each x, count-untrack x c l.released h);
      served_once = omega (arith, b.served_once);
      patient = b.patient;
      gave_up = b.gave_up;
    }
Step-IsBounded {l} (forgets c h) b =
    let fewer = length-untrack c l.uncounted h in
    let in_map = is_mapped c b h in
    record {
      held = b.held;
      limited = b.limited;
      counted = b.counted;
      mapped = omega (arith, b.mapped, fewer, length-untrack c l.server.sessions in_map);
      each = λ x. omega (
        arith,
        b.each x,
        count-untrack x c l.uncounted h,
        count-untrack x c l.server.sessions in_map,
      );
      served_once = b.served_once;
      patient = b.patient;
      gave_up = b.gave_up;
    }
Step-IsBounded {l} stops b =
    if-case (λ (s : Listener). IsBounded (record l { server = s })) l.server.closing _ _ (λ e. b)
      (λ e. record {
        held = b.held;
        limited = b.limited;
        counted = b.counted;
        mapped = b.mapped;
        each = b.each;
        served_once = b.served_once;
        patient = b.patient;
        gave_up = b.gave_up;
      })
Step-IsBounded has_stopped b = record {
  held = b.held;
  limited = b.limited;
  counted = b.counted;
  mapped = b.mapped;
  each = b.each;
  served_once = b.served_once;
  patient = b.patient;
  gave_up = b.gave_up;
}

pub Reach-IsBounded : {l m : Loop} → Reach l m → IsBounded l → IsBounded m
Reach-IsBounded here b = b
Reach-IsBounded (next path step) b = Step-IsBounded step (Reach-IsBounded path b)

Step-max_conns : {l m : Loop} → Step l m → m.server.max_conns ≡ l.server.max_conns
unfolding accept_error accept stop stopped release_slot uncount untrack_conn
Step-max_conns (fails r) = ground arith
Step-max_conns (accepts c peer r) = ground arith
Step-max_conns (releases c h) = refl
Step-max_conns (uncounts c h) = refl
Step-max_conns (forgets c h) = refl
Step-max_conns stops = ground arith
Step-max_conns has_stopped = ground arith

pub Reach-max_conns : {l m : Loop} → Reach l m → m.server.max_conns ≡ l.server.max_conns
Reach-max_conns here = refl
Reach-max_conns (next path step) = Step-max_conns step ∙ Reach-max_conns path
