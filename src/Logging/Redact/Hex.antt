-- ===== src/Logging/Redact/Hex.antt =====
-- The pass for hexadecimal keys, and what the pass for base64 leaves of a line without them.
use awgsocks.Base.{
  ℕ, zero, suc, ◌≡◌, refl, sym, ◌∙◌, Bool, true, false, [], ◌∷◌, Bytes, arith, Bool-cases, inl, inr,
  subst,
}
use awgsocks.Logging.Redact.{
  is_word, is_hex, at_boundary, hex_ahead, base64_ahead, hex_key_at, base64_key_at, hex_pass,
  base64_pass,
}
use awgsocks.Logging.Redact.Keys.{
  base64_key_at-inv, rest_clean, and_true, hex-is_word, has_hex_key-redacted, hex_pass-kept,
  hex_pass-struck, base64_pass-kept, base64_pass-struck, no_hex_key_inside, hex_ahead-hex_pass,
  hex_ahead-base64_pass, hex_key_at-rest, has_hex_key,
}

-- Behind a match the pass goes on as at a new start.
abbrev pub HexClean : Bytes → Type 0
HexClean s =
    ((b : Bool) → has_hex_key b (hex_pass 0 b s) ≡ false)
    × ((k : ℕ) → hex_ahead k s ≡ true → has_hex_key false (hex_pass k true s) ≡ false)

hex_key_at-inv :
    (b : Bool) (c : ℕ) (s : Bytes)
    → hex_key_at b c s ≡ true
    → (is_word c ≡ true) × (hex_ahead 63 s ≡ true)
unfolding hex_ahead
hex_key_at-inv b c s h =
    let (digit, ahead) = and_true (is_hex c) (hex_ahead 63 s) (and_true (at_boundary b c) _ h).1 in
    (hex-is_word c digit, ahead)

hex_ahead-inv :
    (k c : ℕ) (s : Bytes)
    → hex_ahead (suc k) (c ∷ s) ≡ true
    → (is_word c ≡ true) × (hex_ahead k s ≡ true)
unfolding hex_ahead
hex_ahead-inv k c s h =
    let (digit, ahead) = and_true (is_hex c) (hex_ahead k s) h in (hex-is_word c digit, ahead)

not_hex_outside : (c : ℕ) (s : Bytes) → is_word c ≡ false → hex_key_at false c s ≡ false
not_hex_outside c s h = rw h refl

hex_pass-kept_clean :
    (b : Bool) (c : ℕ) (s : Bytes)
    → HexClean s
    → hex_key_at b c s ≡ false
    → has_hex_key b (hex_pass 0 b (c ∷ s)) ≡ false
hex_pass-kept_clean b c s ih e =
    let same = λ (w : is_word c ≡ true).
      subst (λ (x : Bool). hex_ahead 63 (hex_pass 0 x s) ≡ hex_ahead 63 s) (sym w)
        (hex_ahead-hex_pass 63 s) in
    rw (hex_pass-kept b c s e)
      (rw (ih.0 (is_word c)) (hex_key_at-rest b c s (hex_pass 0 (is_word c) s) same ∙ e))

hex_pass-clean_here :
    (b : Bool) (c : ℕ) (s : Bytes) → HexClean s → has_hex_key b (hex_pass 0 b (c ∷ s)) ≡ false
hex_pass-clean_here b c s ih = elim (Bool-cases (hex_key_at b c s)) [
  | inl e ↦
      let (w, ahead) = hex_key_at-inv b c s e in
      rw (hex_pass-struck b c s e) (
        has_hex_key-redacted b (hex_pass 63 (is_word c) s)
        ∙ subst (λ (x : Bool). has_hex_key false (hex_pass 63 x s) ≡ false) (sym w) (ih.1 63 ahead))
  | inr e ↦ hex_pass-kept_clean b c s ih e
]

hex_pass-clean_inside :
    (k : ℕ) (c : ℕ) (s : Bytes)
    → HexClean s
    → hex_ahead k (c ∷ s) ≡ true
    → has_hex_key false (hex_pass k true (c ∷ s)) ≡ false
hex_pass-clean_inside zero c s ih h =
    let out : is_word c ≡ false = unfold hex_ahead in ground (arith, h) in
    rw (hex_pass-kept true c s (no_hex_key_inside c s))
      (rw (ih.0 (is_word c)) (not_hex_outside c (hex_pass 0 (is_word c) s) out))
hex_pass-clean_inside (suc k) c s ih h =
    let (w, ahead) = hex_ahead-inv k c s h in
    unfold hex_pass in
    subst (λ (x : Bool). has_hex_key false (hex_pass k x s) ≡ false) (sym w) (ih.1 k ahead)

pub hex_pass-clean : (s : Bytes) → HexClean s
hex_pass-clean [] = unfold hex_pass in ((λ b. refl), (λ k h. refl))
hex_pass-clean (c ∷ s) =
    let ih = hex_pass-clean s in
    ((λ b. hex_pass-clean_here b c s ih), (λ k h. hex_pass-clean_inside k c s ih h))

-- The pass for base64 brings no hexadecimal key about; behind a match it goes on as at a new start.
abbrev pub StaysClean : Bytes → Type 0
StaysClean s =
    ((b : Bool) → has_hex_key b s ≡ false → has_hex_key b (base64_pass 0 b s) ≡ false)
    × ((k : ℕ) (b : Bool)
        → base64_ahead k s ≡ true
        → has_hex_key b s ≡ false
        → has_hex_key false (base64_pass (suc k) b s) ≡ false)

base64_pass-stays_here :
    (b : Bool) (c : ℕ) (s : Bytes)
    → StaysClean s
    → has_hex_key b (c ∷ s) ≡ false
    → has_hex_key b (base64_pass 0 b (c ∷ s)) ≡ false
base64_pass-stays_here b c s ih h =
    let (rest, none_here) = rest_clean b c s h in
    let same = λ (w : is_word c ≡ true).
      subst (λ (x : Bool). hex_ahead 63 (base64_pass 0 x s) ≡ hex_ahead 63 s) (sym w)
        (hex_ahead-base64_pass 63 s) in
    elim (Bool-cases (base64_key_at b c s)) [
      | inl e ↦ rw (base64_pass-struck b c s e) (
          has_hex_key-redacted b (base64_pass 43 (is_word c) s)
          ∙ ih.1 42 (is_word c) (base64_key_at-inv b c s e) rest)
      | inr e ↦ rw (base64_pass-kept b c s e) (
          rw (ih.0 (is_word c) rest)
            (hex_key_at-rest b c s (base64_pass 0 (is_word c) s) same ∙ none_here))
    ]

base64_pass-stays_inside :
    (k : ℕ) (b : Bool) (c : ℕ) (s : Bytes)
    → StaysClean s
    → base64_ahead k (c ∷ s) ≡ true
    → has_hex_key b (c ∷ s) ≡ false
    → has_hex_key false (base64_pass (suc k) b (c ∷ s)) ≡ false
unfolding base64_ahead base64_pass
base64_pass-stays_inside zero b c s ih a h =
    let (rest, none_here) = rest_clean b c s h in
    let sign : is_word c ≡ false = ground (arith, a) in
    rw sign (ih.0 false (subst (λ (x : Bool). has_hex_key x s ≡ false) sign rest))
base64_pass-stays_inside (suc k) b c s ih a h =
    ih.1 k (is_word c) (ground (arith, a)) (rest_clean b c s h).0

pub base64_pass-StaysClean : (s : Bytes) → StaysClean s
base64_pass-StaysClean [] = unfold base64_pass in ((λ b h. refl), (λ k b a h. refl))
base64_pass-StaysClean (c ∷ s) =
    let ih = base64_pass-StaysClean s in
    (
      (λ b h. base64_pass-stays_here b c s ih h),
      (λ k b a h. base64_pass-stays_inside k b c s ih a h),
    )
