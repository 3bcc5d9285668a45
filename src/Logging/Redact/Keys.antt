-- ===== src/Logging/Redact/Keys.antt =====
-- A bare key in a line, and the two passes that strike such keys out, one byte at a time.
use awgsocks.Base.{
  ℕ, zero, suc, ◌≡◌, refl, Bool, true, false, ◌&&◌, ◌||◌, [], ◌∷◌, ◌++◌, Bytes, arith, Bool-cases,
  inl, inr,
}
use awgsocks.Logging.Redact.{
  at_boundary, is_base64, redacted, is_word, is_hex, hex_ahead, base64_ahead, hex_key_at,
  base64_key_at, hex_pass, base64_pass,
}

-- A whole word of 64 hexadecimal digits stands in the text; the flag is about the byte before it.
abbrev pub has_hex_key : Bool → Bytes → Bool
has_hex_key before [] = false
has_hex_key before (c ∷ s) = has_hex_key (is_word c) s || hex_key_at before c s

-- 43 digits of base64 behind a word boundary, and `=`.
abbrev pub has_base64_key : Bool → Bytes → Bool
has_base64_key before [] = false
has_base64_key before (c ∷ s) = has_base64_key (is_word c) s || base64_key_at before c s

pub and_true : (a b : Bool) → (a && b) ≡ true → (a ≡ true) × (b ≡ true)
and_true a b h = ground arith

pub hex-is_word : (c : ℕ) → is_hex c ≡ true → is_word c ≡ true
hex-is_word c h = ground arith

pub has_hex_key-redacted :
    (b : Bool) (s : Bytes) → has_hex_key b (redacted ++ s) ≡ has_hex_key false s
unfolding hex_ahead
has_hex_key-redacted true s = ground arith
has_hex_key-redacted false s = ground arith

pub has_base64_key-redacted :
    (b : Bool) (s : Bytes) → has_base64_key b (redacted ++ s) ≡ has_base64_key false s
unfolding base64_ahead
has_base64_key-redacted true s = ground arith
has_base64_key-redacted false s = ground arith

pub hex_pass-kept :
    (b : Bool) (c : ℕ) (s : Bytes)
    → hex_key_at b c s ≡ false
    → hex_pass 0 b (c ∷ s) ≡ c ∷ hex_pass 0 (is_word c) s
unfolding hex_pass
hex_pass-kept b c s h = rw (h, hex_pass) refl

pub hex_pass-struck :
    (b : Bool) (c : ℕ) (s : Bytes)
    → hex_key_at b c s ≡ true
    → hex_pass 0 b (c ∷ s) ≡ redacted ++ hex_pass 63 (is_word c) s
unfolding hex_pass
hex_pass-struck b c s h = rw (h, hex_pass) refl

pub base64_pass-kept :
    (b : Bool) (c : ℕ) (s : Bytes)
    → base64_key_at b c s ≡ false
    → base64_pass 0 b (c ∷ s) ≡ c ∷ base64_pass 0 (is_word c) s
unfolding base64_pass
base64_pass-kept b c s h = rw (h, base64_pass) refl

pub base64_pass-struck :
    (b : Bool) (c : ℕ) (s : Bytes)
    → base64_key_at b c s ≡ true
    → base64_pass 0 b (c ∷ s) ≡ redacted ++ base64_pass 43 (is_word c) s
unfolding base64_pass
base64_pass-struck b c s h = rw (h, base64_pass) refl

pub no_hex_key_inside : (c : ℕ) (s : Bytes) → hex_key_at true c s ≡ false
unfolding hex_ahead
no_hex_key_inside c s = ground (arith, hex-is_word c)

-- Inside a word the pass for hexadecimal keys changes nothing.
pub hex_ahead-hex_pass : (n : ℕ) (s : Bytes) → hex_ahead n (hex_pass 0 true s) ≡ hex_ahead n s
unfolding hex_ahead
hex_ahead-hex_pass n [] = unfold hex_pass in refl
hex_ahead-hex_pass zero (c ∷ s) = rw (hex_pass-kept true c s (no_hex_key_inside c s)) refl
hex_ahead-hex_pass (suc n) (c ∷ s) =
    rw (hex_pass-kept true c s (no_hex_key_inside c s)) (elim (Bool-cases (is_hex c)) [
      | inl e ↦ rw (hex-is_word c e) (rw (hex_ahead-hex_pass n s) refl)
      | inr e ↦ rw e refl
    ])

-- The pass for base64 leaves a word as it is, from any byte within it.
pub hex_ahead-base64_pass : (n : ℕ) (s : Bytes) → hex_ahead n (base64_pass 0 true s) ≡ hex_ahead n s
unfolding hex_ahead
hex_ahead-base64_pass n [] = unfold base64_pass in refl
hex_ahead-base64_pass zero (c ∷ s) = elim (Bool-cases (base64_key_at true c s)) [
  | inl e ↦ rw (base64_pass-struck true c s e) (ground (arith, e))
  | inr e ↦ rw (base64_pass-kept true c s e) refl
]
hex_ahead-base64_pass (suc n) (c ∷ s) = elim (Bool-cases (base64_key_at true c s)) [
  | inl e ↦ rw (base64_pass-struck true c s e) (ground (arith, hex-is_word c, e))
  | inr e ↦ rw (base64_pass-kept true c s e) (elim (Bool-cases (is_hex c)) [
    | inl h ↦ rw (hex-is_word c h) (rw (hex_ahead-base64_pass n s) refl)
    | inr h ↦ rw h refl
  ])
]

pub hex_key_at-rest :
    (b : Bool) (c : ℕ) (s t : Bytes)
    → (is_word c ≡ true → hex_ahead 63 t ≡ hex_ahead 63 s)
    → hex_key_at b c t ≡ hex_key_at b c s
unfolding hex_ahead
hex_key_at-rest b c s t same = elim (Bool-cases (is_hex c)) [
  | inl e ↦ ground (arith, same (hex-is_word c e))
  | inr e ↦ ground (arith, e)
]

pub base64_key_at-inv :
    (b : Bool) (c : ℕ) (s : Bytes) → base64_key_at b c s ≡ true → base64_ahead 42 s ≡ true
unfolding base64_ahead
base64_key_at-inv b c s h = (and_true (is_base64 c) _ (and_true (at_boundary b c) _ h).1).1

pub rest_clean :
    (b : Bool) (c : ℕ) (s : Bytes)
    → has_hex_key b (c ∷ s) ≡ false
    → (has_hex_key (is_word c) s ≡ false) × (hex_key_at b c s ≡ false)
rest_clean b c s h = ground (arith, h)
