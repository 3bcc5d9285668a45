-- ===== src/Config/Mtu.antt =====
-- internal/config/tunnel.go: `SafeMTU` and the choice of the MTU in `ParseTunnel`.
use awgsocks.Base.{
  ℕ, ◌+◌, ◌-◌, ◌≤◌, ◌<◌, ◌≡◌, ◌⊎◌, arith, Bool, true, false, not, ◌&&◌, ◌||◌, ltb, ◌==◌,
  if◌then◌else◌,
}

abbrev pub default_mtu : ℕ
default_mtu = 1420

abbrev pub min_safe_mtu : ℕ
min_safe_mtu = 1280

-- `SafeMTU`. Both arguments are at least 0; where Go's difference is negative, this one is 0, which is
-- below the floor as well.
unfoldable pub safe_mtu : ℕ → ℕ → ℕ
safe_mtu s4 content_padding_max =
    let mtu = default_mtu - s4 - content_padding_max in
    if ltb mtu min_safe_mtu then min_safe_mtu else mtu

-- What `ParseTunnel` says about the MTU.
pub data MtuNote : Type 0 where
  quiet lowered too_high : MtuNote

-- `configured` is the parser's MTU, `explicit` whether the configuration names one.
unfoldable pub choose_mtu : ℕ → Bool → ℕ → ℕ → ℕ × MtuNote
unfolding safe_mtu
choose_mtu configured explicit s4 cpa_max =
    let mtu = if configured == 0 then default_mtu else configured in
    let safe = safe_mtu s4 cpa_max in
    if not explicit && not (safe == mtu)
    then (safe, (if ltb 0 s4 || ltb 0 cpa_max then lowered else quiet))
    else if explicit && ltb safe mtu
    then (mtu, too_high)
    else (mtu, quiet)

-- At least 1280 and at most 1420; either it leaves room for the added bytes under 1420, or it is 1280.
pub safe_mtu-bounds :
    (s4 cpa_max : ℕ)
    → (min_safe_mtu ≤ safe_mtu s4 cpa_max)
      × (safe_mtu s4 cpa_max ≤ default_mtu)
      × ((safe_mtu s4 cpa_max + s4 + cpa_max ≤ default_mtu) ⊎ (safe_mtu s4 cpa_max ≡ min_safe_mtu))
unfolding safe_mtu
safe_mtu-bounds s4 cpa_max = ground arith

-- No greater MTU leaves room for the added bytes under 1420.
pub safe_mtu-greatest :
    (s4 cpa_max m : ℕ) → safe_mtu s4 cpa_max < m → default_mtu < m + s4 + cpa_max
unfolding safe_mtu
safe_mtu-greatest s4 cpa_max m above = ground arith

-- An MTU in the configuration stands as it is, with 1420 for 0; without one the tunnel gets the safe MTU,
-- whatever the parser returned for the missing value. In both cases the tunnel's MTU is above the safe
-- one only if the note says so.
pub choose_mtu_lem :
    (configured : ℕ) (explicit : Bool) (s4 cpa_max : ℕ)
    → ((choose_mtu configured explicit s4 cpa_max).0 ≡ (
        if explicit
        then (if configured == 0 then default_mtu else configured)
        else safe_mtu s4 cpa_max))
      × (((choose_mtu configured explicit s4 cpa_max).0 ≤ safe_mtu s4 cpa_max)
          ⊎ ((choose_mtu configured explicit s4 cpa_max).1 ≡ too_high))
unfolding choose_mtu
choose_mtu_lem configured true s4 cpa_max = ground arith
choose_mtu_lem configured false s4 cpa_max = ground arith
