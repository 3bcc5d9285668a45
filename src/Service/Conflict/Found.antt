-- ===== src/Service/Conflict/Found.antt =====
-- When another client of this configuration is found.
use mathlib.Core.List.{Memᴰ}
use awgsocks.Base.{
  ℕ, ◌≡◌, ◌≢◌, ◌⊎◌, refl, arith, true, List, [], ◌∷◌, none, some, inl, inr, All, Bool-cases,
}
use awgsocks.Netip.{Addr, unmap, equal_addr, equal_addr_iff}
use awgsocks.Service.Conflict.{HostAddress, is_usable, held_by, config_conflict}

-- The adapter's address is one of the tunnel's own, and can be held by an adapter.
abbrev pub IsOwn : List (Addr × ℕ) → HostAddress → Type 0
IsOwn tunnel h =
    (p : Addr × ℕ) × Memᴰ p tunnel × (h.addr ≡ unmap p.0) × (is_usable (unmap p.0) ≡ true)

-- No adapter holds the address.
abbrev pub IsFree : List HostAddress → Addr → Type 0
IsFree host want = All (λ (h : HostAddress). h.addr ≢ want) host

held_by-cases :
    (want : Addr) (host : List HostAddress)
    → ((h : HostAddress) × (held_by want host ≡ some h) × Memᴰ h host × (h.addr ≡ want))
      ⊎ ((held_by want host ≡ none) × IsFree host want)
unfolding held_by
held_by-cases want [] = inr (refl, tt)
held_by-cases want (h ∷ host) = elim (Bool-cases (equal_addr h.addr want)) [
  | inl same ↦ inl (h, rw same refl, Memᴰ.head refl, (equal_addr_iff h.addr want).0 same)
  | inr other ↦ elim (held_by-cases want host) [
    | inl (g, e, listed, same) ↦ inl (g, rw other e, Memᴰ.tail listed, same)
    | inr (e, free) ↦
        inr (rw other e, ((λ same. ground (arith, (equal_addr_iff h.addr want).1 same)), free))
  ]
]

-- Either the check names an adapter address of the list that is one of the tunnel's own usable
-- addresses, or it names none and no adapter holds any usable address of the tunnel.
pub config_conflict-Found :
    (tunnel : List (Addr × ℕ)) (host : List HostAddress)
    → ((h : HostAddress) × (config_conflict tunnel host ≡ some h) × Memᴰ h host × IsOwn tunnel h)
      ⊎ ((config_conflict tunnel host ≡ none)
          × All (λ (p : Addr × ℕ). is_usable (unmap p.0) ≡ true → IsFree host (unmap p.0)) tunnel)
unfolding config_conflict
config_conflict-Found [] host = inr (refl, tt)
config_conflict-Found (p ∷ tunnel) host = elim (Bool-cases (is_usable (unmap p.0))) [
  | inl usable ↦ elim (held_by-cases (unmap p.0) host) [
    | inl (h, e, listed, same) ↦
        inl (h, rw (usable, e) refl, listed, (p, Memᴰ.head refl, same, usable))
    | inr (e, free) ↦ elim (config_conflict-Found tunnel host) [
      | inl (h, found, listed, (q, own, same, good)) ↦
          inl (h, rw (usable, e) found, listed, (q, Memᴰ.tail own, same, good))
      | inr (found, frees) ↦ inr (rw (usable, e) found, ((λ u. free), frees))
    ]
  ]
  | inr useless ↦ elim (config_conflict-Found tunnel host) [
    | inl (h, found, listed, (q, own, same, good)) ↦
        inl (h, rw useless found, listed, (q, Memᴰ.tail own, same, good))
    | inr (found, frees) ↦ inr (rw useless found, ((λ u. cc), frees))
  ]
]
