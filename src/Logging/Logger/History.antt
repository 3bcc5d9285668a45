-- ===== src/Logging/Logger/History.antt =====
-- The log file over any history of a new logger.
use awgsocks.Base.{
  zero, suc, if◌then◌else◌, ◌*◌, ◌^◌, ◌==◌, not, ℕ, ◌≡◌, ◌≤◌, refl, Bool, true, false, not, ◌||◌,
  List, [], ◌∷◌, ◌++◌, Option, none, some, Bytes, length, ltb, arith, if-case, All,
}
use awgsocks.Logging.Logger.{
  new_logger, opened_if, Level, File, Logger, World, active, content_of, open_file, size_of,
  to_console, line_of, logf, set_level, set_rotation, close,
}
use awgsocks.Logging.Logger.Size.{IsHealthy, IsBounded, to_file-IsBounded, content_of-created}

pub data Op : Type 0 where
  logs : World → Level → Bytes → Op
  sets_level : Level → Op
  sets_rotation : ℕ → ℕ → Op
  closes : Op

abbrev pub perform : Op → Logger → Logger
perform (logs w level msg) l = logf w level msg l
perform (sets_level level) l = set_level level l
perform (sets_rotation max_size max_files) l = set_rotation max_size max_files l
perform closes l = close l

abbrev pub perform_all : List Op → Logger → Logger
perform_all [] l = l
perform_all (op ∷ ops) l = perform_all ops (perform op l)

-- Lines and new limits of at most this many bytes, in a world that answers as usual.
abbrev pub Fits : ℕ → Op → Type 0
Fits n (logs w level msg) = IsHealthy w × (length (line_of w level msg) ≤ n)
Fits n (sets_level level) = Unit
Fits n (sets_rotation max_size max_files) = max_size ≤ n
Fits n closes = Unit

perform-IsBounded :
    (n : ℕ) (op : Op) (l : Logger) → Fits n op → IsBounded n l → IsBounded n (perform op l)
unfolding logf set_level set_rotation close to_console
perform-IsBounded n (logs w level msg) l (h, short) k =
    if-case (IsBounded n) (l.closed || _) _ _ (λ e. k)
      (λ e.
        to_file-IsBounded n w (line_of w level msg) _ h short
          (if-case (IsBounded n) l.has_console _ _ (λ x. k) (λ x. k)))
perform-IsBounded n (sets_level level) l f k = k
perform-IsBounded n (sets_rotation max_size max_files) l f (c, s, m) =
    (c, s, if-case (λ (x : ℕ). x ≤ n) (ltb 0 max_size) max_size l.max_size (λ e. f) (λ e. m))
perform-IsBounded n closes l f k =
    if-case (IsBounded n) l.closed _ _ (λ e. k) (λ e. ((λ x. cc x), k.1, k.2))

perform_all-IsBounded :
    (n : ℕ) (ops : List Op) (l : Logger)
    → All (Fits n) ops
    → IsBounded n l
    → IsBounded n (perform_all ops l)
perform_all-IsBounded n [] l f k = k
perform_all-IsBounded n (op ∷ ops) l f k =
    perform_all-IsBounded n ops (perform op l) f.1 (perform-IsBounded n op l f.0 k)

-- The limit that a logger is made with: 8 MiB if none is named.
abbrev pub limit_of : ℕ → ℕ
limit_of zero = 8 * 2 ^ 20
limit_of (suc n) = suc n

max_size_of-limit :
    (n max_size : ℕ) → limit_of max_size ≤ n → (if max_size == 0 then 8 * 2 ^ 20 else max_size) ≤ n
max_size_of-limit n zero h = h
max_size_of-limit n (suc k) h = ground (arith, h)

opened_if-IsBounded :
    (n : ℕ) (w : World) (made : Option Bool) (l : Logger)
    → l.file ≡ false
    → l.size ≤ n
    → l.max_size ≤ n
    → size_of (content_of (active l) l.files) ≤ n
    → IsBounded n (opened_if w made l)
unfolding opened_if open_file
opened_if-IsBounded n w none l shut size limit found = ((λ e. cc (shut, e)), size, limit)
opened_if-IsBounded n w (some false) l shut size limit found = ((λ e. cc (shut, e)), size, limit)
opened_if-IsBounded n w (some true) l shut size limit found =
    if-case (IsBounded n) (not w.opens) _ _ (λ e. ((λ e. cc (shut, e)), size, limit))
      (λ e.
        if-case (IsBounded n) (not w.stats) _ _ (λ e. ((λ e. cc (shut, e)), size, limit))
          (λ e. ((λ o. content_of-created (active l) l.files), found, limit)))

-- While renaming, opening, reading its size and writing work, the file of a new logger never holds more
-- bytes than the largest of the limit that it is made with (8 MiB if none is named), the limits set later,
-- the longest line and what it held at the start, and its size is counted right, over any sequence of
-- messages, changes of the level and of the limits, and closing.
pub new_logger-IsBounded :
    (n : ℕ) (w : World) (made : Option Bool) (level : Level) (has_console : Bool)
    (max_size max_files : ℕ) (base ext : Bytes) (files : List File) (ops : List Op)
    → size_of (content_of (base ++ ext) files) ≤ n
    → limit_of max_size ≤ n
    → All (Fits n) ops
    → IsBounded n
        (perform_all ops (new_logger w made level has_console max_size max_files base ext files))
unfolding new_logger
new_logger-IsBounded n w made level has_console max_size max_files base ext files ops found limit
      fits =
    perform_all-IsBounded n ops _ fits
      (opened_if-IsBounded n w made _ refl (omega arith) (max_size_of-limit n max_size limit) found)
