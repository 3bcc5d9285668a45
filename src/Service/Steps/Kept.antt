-- ===== src/Service/Steps/Kept.antt =====
-- The goroutines of the retry, over every part that changes them.
use awgsocks.Base.{
  ℕ, ◌≡◌, ◌≤◌, ◌⊎◌, refl, inl, inr, arith, Bool, true, false, List, [], ◌∷◌, Option, none, some,
  ◌==◌, All, Bool-cases, if-case, ==_iff,
}
use awgsocks.Service.Manager.{
  Manager, Retry, StartError, not_running, paused, start_failed, cancel_retry, retry_start,
  retry_result, start_retry_min, start_retry_max, cancel_gen, without, backed_off, clear_retry,
}
use awgsocks.Service.Control.{end_context, end_retries}
use awgsocks.Service.Steps.{IsKept, awaken}

abbrev IsTracked : Option ℕ → Retry → Type 0
IsTracked o r = r.ended ≡ false → o ≡ some r.gen

abbrev IsPatient : Retry → Type 0
IsPatient r = (start_retry_min ≤ r.delay) × (r.delay ≤ start_retry_max)

abbrev HasEnded : Retry → Type 0
HasEnded r = r.ended ≡ true

ended-IsTracked : (o : Option ℕ) (rs : List Retry) → All HasEnded rs → All (IsTracked o) rs
ended-IsTracked o [] h = tt
ended-IsTracked o (r ∷ rs) (h, hs) = ((λ live. cc), ended-IsTracked o rs hs)

cancel_gen-HasEnded :
    (o : Option ℕ) (rs : List Retry) → All (IsTracked o) rs → All HasEnded (cancel_gen o rs)
unfolding cancel_gen
cancel_gen-HasEnded none [] h = tt
cancel_gen-HasEnded none (r ∷ rs) (h, hs) = (ground arith, cancel_gen-HasEnded none rs hs)
cancel_gen-HasEnded (some gen) [] h = tt
cancel_gen-HasEnded (some gen) (r ∷ rs) (h, hs) =
    (ground (arith, ==_iff r.gen gen), cancel_gen-HasEnded (some gen) rs hs)

cancel_gen-IsPatient :
    (o : Option ℕ) (rs : List Retry) → All IsPatient rs → All IsPatient (cancel_gen o rs)
unfolding cancel_gen
cancel_gen-IsPatient none rs h = h
cancel_gen-IsPatient (some gen) [] h = tt
cancel_gen-IsPatient (some gen) (r ∷ rs) (h, hs) =
    (ground arith, cancel_gen-IsPatient (some gen) rs hs)

pub cancel_retry-IsKept : (m : Manager) → IsKept m → IsKept (cancel_retry m)
unfolding cancel_retry
cancel_retry-IsKept m h = record {
  current = inl refl;
  tracked = ended-IsTracked _ _ (cancel_gen-HasEnded m.retry m.retries h.tracked);
  patient = cancel_gen-IsPatient m.retry m.retries h.patient;
}

pub retry_start-IsKept : (m : Manager) → IsKept m → IsKept (retry_start m)
unfolding retry_start
retry_start-IsKept m h = record {
  current = inr refl;
  tracked = ((λ live. refl), ended-IsTracked _ _ (cancel_gen-HasEnded m.retry m.retries h.tracked));
  patient = ((omega arith, omega arith), cancel_gen-IsPatient m.retry m.retries h.patient);
}

without-All {ℓ} :
    (P : Retry → Type ℓ) (gen : ℕ) (rs : List Retry) → All P rs → All P (without gen rs)
unfolding without
without-All P gen [] h = tt
without-All P gen (r ∷ rs) (h, hs) = elim (Bool-cases (r.gen == gen)) [
  | inl same ↦ rw same (without-All P gen rs hs)
  | inr other ↦ rw other (h, without-All P gen rs hs)
]

-- The others were tracked by another generation, or have ended.
without-IsTracked :
    (o : Option ℕ) (gen : ℕ) (rs : List Retry)
    → (o ≡ none) ⊎ (o ≡ some gen)
    → All (IsTracked o) rs
    → All (IsTracked none) (without gen rs)
unfolding without
without-IsTracked o gen [] c h = tt
without-IsTracked o gen (r ∷ rs) c (h, hs) = elim (Bool-cases (r.gen == gen)) [
  | inl same ↦ rw same (without-IsTracked o gen rs c hs)
  | inr other ↦
      rw other ((λ live. ground (arith, ==_iff r.gen gen)), without-IsTracked o gen rs c hs)
]

clear_retry-IsKept : (gen : ℕ) (m : Manager) → IsKept m → IsKept (clear_retry gen m)
unfolding clear_retry
clear_retry-IsKept gen m h =
    if-case IsKept (m.retry_gen == gen) _ _
      (λ same. record {
        current = inl refl;
        tracked =
            without-IsTracked m.retry gen m.retries
              (ground (arith, ==_iff m.retry_gen gen, h.current)) h.tracked;
        patient = without-All IsPatient gen m.retries h.patient;
      })
      (λ other. record {
        current = h.current;
        tracked = without-All (IsTracked m.retry) gen m.retries h.tracked;
        patient = without-All IsPatient gen m.retries h.patient;
      })

backed_off-IsTracked :
    (o : Option ℕ) (gen : ℕ) (rs : List Retry)
    → All (IsTracked o) rs
    → All (IsTracked o) (backed_off gen rs)
unfolding backed_off
backed_off-IsTracked o gen [] h = tt
backed_off-IsTracked o gen (r ∷ rs) (h, hs) = (
  if-case (IsTracked o) (r.gen == gen) _ _ (λ same. h) (λ other. h),
  backed_off-IsTracked o gen rs hs,
)

backed_off-IsPatient :
    (gen : ℕ) (rs : List Retry) → All IsPatient rs → All IsPatient (backed_off gen rs)
unfolding backed_off
backed_off-IsPatient gen [] h = tt
backed_off-IsPatient gen (r ∷ rs) (h, hs) = (
  if-case IsPatient (r.gen == gen) _ _ (λ same. ground arith) (λ other. h),
  backed_off-IsPatient gen rs hs,
)

pub retry_result-IsKept :
    (gen : ℕ) (ended : Bool) (e : Option StartError) (m : Manager)
    → IsKept m
    → IsKept (retry_result gen ended e m)
unfolding retry_result
retry_result-IsKept gen true e m h = clear_retry-IsKept gen m h
retry_result-IsKept gen false none m h = clear_retry-IsKept gen m h
retry_result-IsKept gen false (some (paused by)) m h = clear_retry-IsKept gen m h
retry_result-IsKept gen false (some not_running) m h = record {
  current = h.current;
  tracked = backed_off-IsTracked m.retry gen m.retries h.tracked;
  patient = backed_off-IsPatient gen m.retries h.patient;
}
retry_result-IsKept gen false (some (start_failed e)) m h = record {
  current = h.current;
  tracked = backed_off-IsTracked m.retry gen m.retries h.tracked;
  patient = backed_off-IsPatient gen m.retries h.patient;
}

pub awaken-All {ℓ} :
    (P : Retry → Type ℓ) (gen : ℕ) (rs : List Retry)
    → ((r : Retry) → P r → P (record r { awake = true }))
    → All P rs
    → All P (awaken gen rs)
unfolding awaken
awaken-All P gen [] f h = tt
awaken-All P gen (r ∷ rs) f (h, hs) =
    (if-case P (r.gen == gen) _ _ (λ same. f r h) (λ other. h), awaken-All P gen rs f hs)

end_retries-HasEnded : (rs : List Retry) → All HasEnded (end_retries rs)
unfolding end_retries
end_retries-HasEnded [] = tt
end_retries-HasEnded (r ∷ rs) = (refl, end_retries-HasEnded rs)

end_retries-IsPatient : (rs : List Retry) → All IsPatient rs → All IsPatient (end_retries rs)
unfolding end_retries
end_retries-IsPatient [] h = tt
end_retries-IsPatient (r ∷ rs) (h, hs) = (h, end_retries-IsPatient rs hs)

pub end_context-IsKept : (m : Manager) → IsKept m → IsKept (end_context m)
unfolding end_context
end_context-IsKept m h = record {
  current = h.current;
  tracked = ended-IsTracked _ _ (end_retries-HasEnded m.retries);
  patient = end_retries-IsPatient m.retries h.patient;
}

-- The other parts leave the retry alone.
pub same-IsKept :
    (m n : Manager)
    → n.retry ≡ m.retry
    → n.retry_gen ≡ m.retry_gen
    → n.retries ≡ m.retries
    → IsKept m
    → IsKept n
same-IsKept m n a b c h = record {
  current = rw (a, b) h.current;
  tracked = rw (a, c) h.tracked;
  patient = rw c h.patient;
}
