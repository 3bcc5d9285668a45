-- ===== src/Logging/Logger/Size.antt =====
-- The logger's count of its file, and the bound on that file.
use awgsocks.Base.{
  not, ℕ, ◌+◌, ◌≡◌, ◌≤◌, refl, sym, ap, ◌∙◌, Bool, true, false, not, ◌&&◌, List, [], ◌∷◌, ◌++◌,
  Option, none, some, Bytes, length, ltb, equal, equal_self, equal_iff, arith, if-case, Bool-cases,
  Option-cases, inl, inr, subst, length-append,
}
use awgsocks.Logging.Logger.{
  File, Logger, World, active, without, content_of, rename, rename_onto, created, create_at,
  append_to, open_file, size_of, delete_each, doomed, prune, rotated_name, set_aside,
  tell_open_error, rotate, write_string, to_file, rotated_names,
}

-- The size that is counted is that of the file.
abbrev pub IsCounted : Logger → Type 0
IsCounted l =
    l.file ≡ true
    → (content : Bytes) × (content_of (active l) l.files ≡ some content) × (length content ≡ l.size)

content_of-append_to :
    (name bytes content : Bytes) (fs : List File)
    → content_of name fs ≡ some content
    → content_of name (append_to name bytes fs) ≡ some (content ++ bytes)
unfolding append_to
content_of-append_to name bytes content [] h = ground (arith, h)
content_of-append_to name bytes content (f ∷ fs) h =
    ground (arith, h, content_of-append_to name bytes content fs)

content_of-without :
    (name other : Bytes) (fs : List File)
    → content_of name fs ≡ none
    → content_of name (without other fs) ≡ none
content_of-without name other [] h = refl
content_of-without name other (f ∷ fs) h = ground (arith, h, content_of-without name other fs)

content_of-without_self : (name : Bytes) (fs : List File) → content_of name (without name fs) ≡ none
content_of-without_self name [] = refl
content_of-without_self name (f ∷ fs) = ground (arith, content_of-without_self name fs)

content_of-delete_each :
    (name : Bytes) (removes : Bytes → Bool) (names : List Bytes) (fs : List File)
    → content_of name fs ≡ none
    → content_of name (delete_each removes names fs) ≡ none
unfolding delete_each
content_of-delete_each name removes [] fs h = h
content_of-delete_each name removes (n ∷ names) fs h = content_of-delete_each name removes names _ (
    if-case (λ x. content_of name x ≡ none) (removes n) _ _ (λ e. content_of-without name n fs h)
      (λ e. h))

pub content_of-created :
    (name : Bytes) (fs : List File)
    → (content : Bytes) × (content_of name (created name fs) ≡ some content)
      × (length content ≡ size_of (content_of name fs))
unfolding created create_at
content_of-created name fs = elim (Option-cases (content_of name fs)) [
  | inl e ↦ ([], rw e (rw (equal_self name) refl), rw e refl)
  | inr (c, e) ↦ (c, rw e e, rw e refl)
]

rotated_name-differs :
    (base mark ext : Bytes) → equal (base ++ (b'-' ∷ (mark ++ ext))) (base ++ ext) ≡ false
rotated_name-differs base mark ext =
    elim (Bool-cases (equal (base ++ (b'-' ∷ (mark ++ ext))) (base ++ ext))) [
      | inr e ↦ e
      | inl e ↦ absurd (
          omega (
            arith,
            ap length ((equal_iff (base ++ (b'-' ∷ (mark ++ ext))) (base ++ ext)).0 e),
            length-append base (b'-' ∷ (mark ++ ext)),
            length-append base ext,
            length-append mark ext,
          ))
    ]

content_of-rename :
    (old new : Bytes) (fs : List File)
    → equal new old ≡ false
    → content_of old (rename old new fs) ≡ none
unfolding rename rename_onto
content_of-rename old new fs h = elim (Option-cases (content_of old fs)) [
  | inl e ↦ rw e e
  | inr (c, e) ↦ rw e (rw h (content_of-without old new _ (content_of-without_self old fs)))
]

-- The directory and the clock answer as usual.
abbrev pub IsHealthy : World → Type 0
IsHealthy w = (w.renames ≡ true) × (w.opens ≡ true) × (w.stats ≡ true) × (w.cut_short ≡ none)

-- The fields that a rotation leaves alone.
abbrev IsSame : Logger → Logger → Type 0
IsSame l r = (r.base ≡ l.base) × (r.ext ≡ l.ext) × (r.max_size ≡ l.max_size)

IsGone : Logger → Logger → Type 0
IsGone l r = IsSame l r × (content_of (active l) r.files ≡ none)

prune-IsGone : (w : World) (l m : Logger) → IsGone l m → IsGone l (prune w m)
unfolding prune IsGone
prune-IsGone w l m (same, gone) =
    if-case (λ r. IsSame l r × (content_of (active l) r.files ≡ none)) w.lists _ _
      (λ e. (
        same,
        content_of-delete_each (active l) w.removes
            (doomed m.max_files (rotated_names m.base m.ext m.files)) m.files gone,
      ))
      (λ e. (same, gone))

set_aside-IsGone :
    (w : World) (l : Logger) → w.renames ≡ true → IsGone l (set_aside w (record l { file = false }))
unfolding set_aside IsGone
set_aside-IsGone w l e =
    if-case (λ r. IsSame l r × (content_of (active l) r.files ≡ none)) w.renames _ _
      (λ x. (
        (refl, refl, refl),
        content_of-rename (active l) (rotated_name w l) l.files
            (rotated_name-differs l.base w.rotation_stamp l.ext),
      ))
      (λ x. cc (e, x))

-- A file that was opened anew, and is empty.
abbrev IsFresh : Logger → Logger → Type 0
IsFresh l r = IsSame l r × (r.file ≡ true) × (r.size ≡ 0) × IsCounted r

open_file-IsFresh :
    (w : World) (l m : Logger)
    → w.opens ≡ true
    → w.stats ≡ true
    → IsGone l m
    → IsFresh l (open_file w m)
unfolding open_file IsGone
open_file-IsFresh w l m o s ((b, e, x), gone) =
    let empty : content_of (active m) m.files ≡ none =
      (λ i. content_of (b i ++ e i) m.files) ∙ gone in
    let (content, found, long) = content_of-created (active m) m.files in
    if-case (IsFresh l) (not w.opens) _ _ (λ k. cc (o, k))
      (λ k.
        if-case (IsFresh l) (not w.stats) _ _ (λ n. cc (s, n))
          (λ n. ((b, e, x), refl, ap size_of empty, (λ k. (content, found, long)))))

both : (a b : Bool) → a ≡ true → b ≡ true → (a && b) ≡ true
both a b h k = ground arith

tell_open_error-IsFresh :
    (w : World) (l m : Logger)
    → w.opens ≡ true
    → w.stats ≡ true
    → IsFresh l m
    → IsFresh l (tell_open_error w m)
unfolding tell_open_error
tell_open_error-IsFresh w l m o s h =
    if-case (IsFresh l) (w.opens && w.stats) _ _ (λ e. h) (λ e. cc (both w.opens w.stats o s, e))

rotate-IsFresh : (w : World) (l : Logger) → IsHealthy w → l.file ≡ true → IsFresh l (rotate w l)
unfolding rotate
rotate-IsFresh w l (renames, opens, stats, whole) e =
    if-case (IsFresh l) l.file _ _
      (λ k.
        tell_open_error-IsFresh w l _ opens stats
          (open_file-IsFresh w l _ opens stats (prune-IsGone w l _ (set_aside-IsGone w l renames))))
      (λ k. cc (e, k))

write_string-IsCounted :
    (line : Bytes) (l : Logger)
    → l.file ≡ true
    → IsCounted l
    → IsCounted (write_string none line l)
      × ((write_string none line l).size ≡ l.size + length line)
unfolding write_string
write_string-IsCounted line l e h =
    if-case (λ r. IsCounted r × (r.size ≡ l.size + length line)) l.file _ _
      (λ k.
        let (content, found, long) = h e in
        (
          (λ o. (
            content ++ line,
            content_of-append_to (active l) line content l.files found,
            length-append content line ∙ ap (λ k. k + length line) long,
          )),
          refl,
        ))
      (λ k. cc (e, k))

-- The count is right, and it and the limit are at most this many bytes.
abbrev pub IsBounded : ℕ → Logger → Type 0
IsBounded n l = IsCounted l × (l.size ≤ n) × (l.max_size ≤ n)

max_size-write_string :
    (o : Option ℕ) (line : Bytes) (l : Logger) → (write_string o line l).max_size ≡ l.max_size
unfolding write_string
max_size-write_string none line l = ground arith
max_size-write_string (some k) line l = ground arith

write_string-IsBounded :
    (n : ℕ) (w : World) (line : Bytes) (l : Logger)
    → w.cut_short ≡ none
    → l.file ≡ true
    → IsCounted l
    → l.size + length line ≤ n
    → l.max_size ≤ n
    → IsBounded n (write_string w.cut_short line l)
write_string-IsBounded n w line l whole e counted fits limit =
    let (k, grown) = write_string-IsCounted line l e counted in
    subst (λ o. IsBounded n (write_string o line l)) (sym whole)
      (k, omega (arith, grown), omega (arith, max_size-write_string none line l))

pub to_file-IsBounded :
    (n : ℕ) (w : World) (line : Bytes) (l : Logger)
    → IsHealthy w
    → length line ≤ n
    → IsBounded n l
    → IsBounded n (to_file w line l)
unfolding to_file
to_file-IsBounded n w line l h short (counted, size, limit) =
    if-case (IsBounded n) (not l.file) _ _ (λ e. (counted, size, limit))
      (λ e.
        let is_open : l.file ≡ true = ground (arith, e) in
        if-case (IsBounded n) (ltb l.max_size (l.size + length line)) _ _
          (λ big.
            let ((b, x, same), opened, empty, fresh) = rotate-IsFresh w l h is_open in
            write_string-IsBounded n w line (rotate w l) h.3 opened fresh (omega (arith, empty))
              (omega (arith, same)))
          (λ small.
            write_string-IsBounded n w line l h.3 is_open counted (ground (arith, small)) limit))
