-- ===== src/Logging/Redact/Clean.antt =====
-- What is left of a line, and what the logger writes.
use awgsocks.Base.{
  codes, ◌==◌, ◌⊎◌, ℕ, zero, suc, ◌≡◌, refl, sym, ◌∙◌, Bool, true, false, [], ◌∷◌, ◌++◌, Bytes,
  arith, Bool-cases, inl, inr, subst,
}
use awgsocks.Logging.Redact.{
  redacted, is_word, is_base64, hex_ahead, base64_ahead, base64_key_at, hex_pass, base64_pass,
  redact, assign_pass,
}
use awgsocks.Logging.Redact.Keys.{
  base64_key_at-inv, rest_clean, hex-is_word, and_true, has_base64_key-redacted, base64_pass-kept,
  base64_pass-struck, has_hex_key, has_base64_key,
}
use awgsocks.Logging.Redact.Hex.{hex_pass-clean, base64_pass-StaysClean}
use awgsocks.Logging.Logger.{
  Level, World, line_of, level_name, skip_line_ends, debug, info, warn, error,
}
use mathlib.Core.List.{reverse}

struck_ends : (n : ℕ) (s : Bytes) → ¬ (base64_ahead n (redacted ++ s) ≡ true)
unfolding base64_ahead
struck_ends zero s h = ground (arith, h)
struck_ends (suc n) s h = ground (arith, h)

-- Where the pass leaves a key, there was one.
base64_ahead-base64_pass :
    (n : ℕ) (b : Bool) (s : Bytes)
    → base64_ahead n (base64_pass 0 b s) ≡ true
    → base64_ahead n s ≡ true
unfolding base64_ahead
base64_ahead-base64_pass n b [] h = unfold base64_pass in h
base64_ahead-base64_pass zero b (c ∷ s) h = elim (Bool-cases (base64_key_at b c s)) [
  | inl e ↦ absurd (
      struck_ends zero (base64_pass 43 (is_word c) s)
        (subst (λ l. base64_ahead zero l ≡ true) (base64_pass-struck b c s e) h))
  | inr e ↦ subst (λ l. base64_ahead zero l ≡ true) (base64_pass-kept b c s e) h
]
base64_ahead-base64_pass (suc n) b (c ∷ s) h = elim (Bool-cases (base64_key_at b c s)) [
  | inl e ↦ absurd (
      struck_ends (suc n) (base64_pass 43 (is_word c) s)
        (subst (λ l. base64_ahead (suc n) l ≡ true) (base64_pass-struck b c s e) h))
  | inr e ↦
      let (digit, ahead) =
        and_true (is_base64 c) _
          (subst (λ l. base64_ahead (suc n) l ≡ true) (base64_pass-kept b c s e) h) in
      rw digit (base64_ahead-base64_pass n (is_word c) s ahead)
]

no_key_appears :
    (b : Bool) (c : ℕ) (s : Bytes)
    → base64_key_at b c s ≡ false
    → base64_key_at b c (base64_pass 0 (is_word c) s) ≡ false
unfolding base64_ahead
no_key_appears b c s e = elim (Bool-cases (base64_ahead 42 (base64_pass 0 (is_word c) s))) [
  | inl h ↦ let same = base64_ahead-base64_pass 42 (is_word c) s h in rw (h ∙ sym same) e
  | inr h ↦ rw h (ground arith)
]

abbrev Base64Clean : Bytes → Type 0
Base64Clean s =
    ((b : Bool) → has_base64_key b (base64_pass 0 b s) ≡ false)
    × ((k : ℕ) (b : Bool)
        → base64_ahead k s ≡ true
        → has_base64_key false (base64_pass (suc k) b s) ≡ false)

base64_pass-clean_here :
    (b : Bool) (c : ℕ) (s : Bytes)
    → Base64Clean s
    → has_base64_key b (base64_pass 0 b (c ∷ s)) ≡ false
base64_pass-clean_here b c s ih = elim (Bool-cases (base64_key_at b c s)) [
  | inl e ↦ rw (base64_pass-struck b c s e) (
      has_base64_key-redacted b (base64_pass 43 (is_word c) s)
      ∙ ih.1 42 (is_word c) (base64_key_at-inv b c s e))
  | inr e ↦ rw (base64_pass-kept b c s e) (rw (ih.0 (is_word c)) (no_key_appears b c s e))
]

base64_pass-clean_inside :
    (k : ℕ) (b : Bool) (c : ℕ) (s : Bytes)
    → Base64Clean s
    → base64_ahead k (c ∷ s) ≡ true
    → has_base64_key false (base64_pass (suc k) b (c ∷ s)) ≡ false
unfolding base64_ahead base64_pass
base64_pass-clean_inside zero b c s ih a =
    let sign : is_word c ≡ false = ground (arith, a) in rw sign (ih.0 false)
base64_pass-clean_inside (suc k) b c s ih a = ih.1 k (is_word c) (and_true (is_base64 c) _ a).1

base64_pass-clean : (s : Bytes) → Base64Clean s
base64_pass-clean [] = unfold base64_pass in ((λ b. refl), (λ k b a. refl))
base64_pass-clean (c ∷ s) =
    let ih = base64_pass-clean s in
    ((λ b. base64_pass-clean_here b c s ih), (λ k b a. base64_pass-clean_inside k b c s ih a))

-- What is left of a line holds no word that is 64 hexadecimal digits, and nowhere behind a word boundary
-- 43 digits of base64 with `=`, whatever the line was.
redact-clean :
    (s : Bytes) → (has_hex_key false (redact s) ≡ false) × (has_base64_key false (redact s) ≡ false)
unfolding redact
redact-clean s =
    let t = hex_pass 0 false (assign_pass 0 false s) in
    (
      (base64_pass-StaysClean t).0 false ((hex_pass-clean (assign_pass 0 false s)).0 false),
      (base64_pass-clean t).0 false,
    )

-- A blank or the end of a line ends every key.
hex_ahead-cut :
    (n : ℕ) (s : Bytes) (c : ℕ) (t : Bytes)
    → is_word c ≡ false
    → hex_ahead n (s ++ (c ∷ t)) ≡ hex_ahead n s
unfolding hex_ahead
hex_ahead-cut zero [] c t h = rw h refl
hex_ahead-cut zero (d ∷ s) c t h = refl
hex_ahead-cut (suc n) [] c t h = ground (arith, h, hex-is_word c)
hex_ahead-cut (suc n) (d ∷ s) c t h = rw (hex_ahead-cut n s c t h) refl

base64_ahead-cut :
    (n : ℕ) (s : Bytes) (c : ℕ) (t : Bytes)
    → is_base64 c ≡ false
    → (c == b'=') ≡ false
    → base64_ahead n (s ++ (c ∷ t)) ≡ base64_ahead n s
unfolding base64_ahead
base64_ahead-cut zero [] c t h k = k
base64_ahead-cut zero (d ∷ s) c t h k = refl
base64_ahead-cut (suc n) [] c t h k = rw h refl
base64_ahead-cut (suc n) (d ∷ s) c t h k = rw (base64_ahead-cut n s c t h k) refl

-- Neither kind of bare key stands in the text.
abbrev pub IsClean : Bytes → Type 0
IsClean s = (has_hex_key false s ≡ false) × (has_base64_key false s ≡ false)

has_hex_key-cut :
    (b : Bool) (s : Bytes) (c : ℕ) (t : Bytes)
    → is_word c ≡ false
    → has_hex_key b s ≡ false
    → has_hex_key false t ≡ false
    → has_hex_key b (s ++ (c ∷ t)) ≡ false
unfolding hex_ahead
has_hex_key-cut b [] c t h p q = ground (arith, h, q, hex-is_word c)
has_hex_key-cut b (d ∷ s) c t h p q =
    let (rest, here) = rest_clean b d s p in
    rw (has_hex_key-cut (is_word d) s c t h rest q) (rw (hex_ahead-cut 63 s c t h) here)

no_base64_rest :
    (b : Bool) (c : ℕ) (s : Bytes)
    → has_base64_key b (c ∷ s) ≡ false
    → (has_base64_key (is_word c) s ≡ false) × (base64_key_at b c s ≡ false)
no_base64_rest b c s h = ground (arith, h)

has_base64_key-cut :
    (b : Bool) (s : Bytes) (c : ℕ) (t : Bytes)
    → is_word c ≡ false
    → is_base64 c ≡ false
    → (c == b'=') ≡ false
    → has_base64_key b s ≡ false
    → has_base64_key false t ≡ false
    → has_base64_key b (s ++ (c ∷ t)) ≡ false
unfolding base64_ahead
has_base64_key-cut b [] c t h k e p q = rw h (rw q (rw k (ground arith)))
has_base64_key-cut b (d ∷ s) c t h k e p q =
    let (rest, here) = no_base64_rest b d s p in
    rw (has_base64_key-cut (is_word d) s c t h k e rest q) (rw (base64_ahead-cut 42 s c t k e) here)

IsClean-cut :
    (s : Bytes) (c : ℕ) (t : Bytes)
    → (c ≡ 32) ⊎ (c ≡ 10)
    → IsClean s
    → IsClean t
    → IsClean (s ++ (c ∷ t))
IsClean-cut s c t h (p, q) (x, y) =
    let w : is_word c ≡ false = ground (arith, h) in
    (
      has_hex_key-cut false s c t w p x,
      has_base64_key-cut false s c t w (ground (arith, h)) (ground (arith, h)) q y,
    )

-- The line behind the name of the level, which is the part that `redact` has seen.
level_then-IsClean :
    (level : Level) (r : Bytes)
    → IsClean r
    → IsClean (b'[' ∷ (level_name level ++ (codes "] " ++ (r ++ (10 ∷ [])))))
unfolding hex_ahead base64_ahead
level_then-IsClean debug r h =
    IsClean-cut (codes "[DEBUG]") 32 (r ++ (10 ∷ [])) (inl refl) (refl, refl)
      (IsClean-cut r 10 [] (inr refl) h (refl, refl))
level_then-IsClean info r h =
    IsClean-cut (codes "[INFO]") 32 (r ++ (10 ∷ [])) (inl refl) (refl, refl)
      (IsClean-cut r 10 [] (inr refl) h (refl, refl))
level_then-IsClean warn r h =
    IsClean-cut (codes "[WARN]") 32 (r ++ (10 ∷ [])) (inl refl) (refl, refl)
      (IsClean-cut r 10 [] (inr refl) h (refl, refl))
level_then-IsClean error r h =
    IsClean-cut (codes "[ERROR]") 32 (r ++ (10 ∷ [])) (inl refl) (refl, refl)
      (IsClean-cut r 10 [] (inr refl) h (refl, refl))

-- The line that is written for a message holds no word of 64 hexadecimal digits, and nowhere behind a
-- word boundary 43 digits of base64 with `=`, whatever the message is, if the time that it is stamped
-- with holds none.
pub line_of-IsClean :
    (w : World) (level : Level) (msg : Bytes) → IsClean w.stamp → IsClean (line_of w level msg)
unfolding line_of
line_of-IsClean w level msg h =
    let m = reverse (skip_line_ends (reverse msg)) in
    IsClean-cut w.stamp 32 (b'[' ∷ (level_name level ++ (codes "] " ++ (redact m ++ (10 ∷ [])))))
      (inl refl) h (level_then-IsClean level (redact m) (redact-clean m))
