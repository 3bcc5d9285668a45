-- ===== src/Awg/Stats/Secrets.antt =====
-- What the statistics say of the device's keys.
use awgsocks.Base.{
  ◌≡◌, ◌∙◌, sym, refl, ap, arith, Bool, true, false, List, [], ◌∷◌, Option, none, some, ok, ◌>>=◌,
  equal, if◌then◌else◌, Bool-cases, inl, inr,
}
use mathlib.Core.Path.{fun_ext}
use awgsocks.Strings.{Text, trim_space, cut, split}
use awgsocks.Awg.Stats.{
  Reader, secret_uapi_keys, is_in, key_value, parse_line, parse_lines, first_reader, finished,
  parse_uapi_get,
}

-- A line `key=value` whose key is one of the secret ones.
is_secret_entry : Text × Option Text → Bool
is_secret_entry (key, none) = false
is_secret_entry (key, some value) = is_in key secret_uapi_keys

unfoldable pub is_secret : Text → Bool
unfolding is_secret_entry
is_secret line = is_secret_entry (cut b'=' (trim_space line))

-- The lines that are not secret.
abbrev pub public_lines : List Text → List Text
public_lines [] = []
public_lines (line ∷ lines) =
    if is_secret line then public_lines lines else line ∷ public_lines lines

key_value-secret :
    (parts : Text × Option Text) (r : Reader)
    → is_secret_entry parts ≡ true
    → key_value parts r ≡ ok r
unfolding key_value is_secret_entry
key_value-secret (key, none) r h = ground arith
key_value-secret (key, some value) r h = rw h

parse_line-secret : (line : Text) (r : Reader) → is_secret line ≡ true → parse_line line r ≡ ok r
unfolding parse_line is_secret is_secret_entry
parse_line-secret line r h = elim (Bool-cases (equal (trim_space line) [])) [
  | inl blank ↦ rw blank
  | inr full ↦ rw full (key_value-secret (cut b'=' (trim_space line)) r h)
]

parse_lines-public :
    (lines : List Text) (r : Reader) → parse_lines lines r ≡ parse_lines (public_lines lines) r
unfolding parse_lines
parse_lines-public [] r = refl
parse_lines-public (line ∷ lines) r = elim (Bool-cases (is_secret line)) [
  | inl secret ↦ rw (secret, parse_line-secret line r secret) (parse_lines-public lines r)
  | inr plain ↦
      rw plain
        (ap (λ next. parse_line line r >>= next) (fun_ext (λ r'. parse_lines-public lines r')))
]

-- The statistics depend only on the lines that are not secret: two answers of the device that differ in
-- the private key, a preshared key or the header protection key are read alike.
pub parse_uapi_get-public :
    (raw raw' : Text)
    → public_lines (split 10 raw) ≡ public_lines (split 10 raw')
    → parse_uapi_get raw ≡ parse_uapi_get raw'
unfolding parse_uapi_get
parse_uapi_get-public raw raw' same =
    let lines = split 10 raw in
    let lines' = split 10 raw' in
    let read : parse_lines lines first_reader ≡ parse_lines lines' first_reader =
      parse_lines-public lines first_reader
      ∙ ap (λ ls. parse_lines ls first_reader) same
      ∙ sym (parse_lines-public lines' first_reader) in
    ap (λ r. r >>= finished) read
