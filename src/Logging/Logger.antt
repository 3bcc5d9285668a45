-- ===== src/Logging/Logger.antt =====
-- internal/logging/logging.go: the logger, its rotation and what it keeps of the rotated files. Texts are
-- UTF-8 bytes. What the operating system and the clock answer is an argument; nobody else writes into
-- the directory.
pub mod Size
pub mod History
pub mod Order
pub mod Members
pub mod Pruned
use awgsocks.Base.{
  ℕ, suc, zero, ◌+◌, ◌-◌, ◌*◌, ◌^◌, Bool, true, false, not, ◌&&◌, ◌||◌, List, [], ◌∷◌, ◌++◌, Option,
  none, some, Bytes, length, take, codes, ltb, leb, ◌==◌, equal, if◌then◌else◌, Result, ok, err,
}
use awgsocks.Strings.{Text, to_lower, trim_space, has_prefix}
use awgsocks.Logging.Redact.{redact}
use mathlib.Core.List.{reverse}

pub data Level : Type 0 where
  debug info warn error : Level

abbrev pub rank : Level → ℕ
rank debug = 0
rank info = 1
rank warn = 2
rank error = 3

-- `Level.String`.
abbrev pub level_name : Level → Bytes
level_name debug = codes "DEBUG"
level_name info = codes "INFO"
level_name warn = codes "WARN"
level_name error = codes "ERROR"

-- `ParseLevel`; an error carries the text.
unfoldable pub parse_level : (ℕ → ℕ) → Text → Result Text Level
parse_level lower_other s =
    let name = to_lower lower_other (trim_space s) in
    if equal name (codes "debug")
    then ok debug
    else if equal name (codes "info") || equal name []
    then ok info
    else if equal name (codes "warn") || equal name (codes "warning")
    then ok warn
    else if equal name (codes "error")
    then ok error
    else err s

-- An entry of the log directory.
pub record File : Type 0 where
  pub name : Bytes
  pub content : Bytes
  pub is_dir : Bool

-- The state of `Logger`, with the directory and what the console was sent. `file` says that the log file
-- is open; `base` and `ext` are the parts of its name.
pub record Logger : Type 0 where
  pub level : Level
  pub base : Bytes
  pub ext : Bytes
  pub file : Bool
  pub size : ℕ
  pub has_console : Bool
  pub console : List Bytes
  pub closed : Bool
  pub max_size : ℕ
  pub max_files : ℕ
  pub files : List File

-- What is answered during one call: the clock, in its two formats, and whether each call of the
-- operating system works. `cut_short` is a write that fails, with the number of bytes that it wrote.
pub record World : Type 0 where
  pub stamp : Bytes
  pub rotation_stamp : Bytes
  pub renames : Bool
  pub removes : Bytes → Bool
  pub lists : Bool
  pub opens : Bool
  pub stats : Bool
  pub open_error : Bytes
  pub cut_short : Option ℕ

abbrev pub active : Logger → Bytes
active l = l.base ++ l.ext

-- The directory's operations.
abbrev pub without : Bytes → List File → List File
without name [] = []
without name (f ∷ fs) = if equal f.name name then without name fs else f ∷ without name fs

abbrev pub content_of : Bytes → List File → Option Bytes
content_of name [] = none
content_of name (f ∷ fs) = if equal f.name name then some f.content else content_of name fs

rename_onto : Bytes → Bytes → Option Bytes → List File → List File
rename_onto old new none fs = fs
rename_onto old new (some content) fs =
    record { name = new; content = content; is_dir = false } ∷ without new (without old fs)

-- `os.Rename` replaces what has the new name.
unfoldable pub rename : Bytes → Bytes → List File → List File
unfolding rename_onto
rename old new fs = rename_onto old new (content_of old fs) fs

create_at : Bytes → Option Bytes → List File → List File
create_at name none fs = record { name = name; content = []; is_dir = false } ∷ fs
create_at name (some content) fs = fs

-- Opening with `O_CREATE`.
unfoldable pub created : Bytes → List File → List File
unfolding create_at
created name fs = create_at name (content_of name fs) fs

-- Writing with `O_APPEND`.
unfoldable pub append_to : Bytes → Bytes → List File → List File
append_to name bytes [] = []
append_to name bytes (f ∷ fs) =
    if equal f.name name
    then record f { content = f.content ++ bytes } ∷ fs
    else f ∷ append_to name bytes fs

abbrev pub size_of : Option Bytes → ℕ
size_of none = 0
size_of (some content) = length content

-- `openFile`.
unfoldable pub open_file : World → Logger → Logger
open_file w l =
    if not w.opens
    then l
    else if not w.stats
    then record l { files = created (active l) l.files }
    else record l {
      files = created (active l) l.files;
      file = true;
      size = size_of (content_of (active l) l.files);
    }

unfoldable pub has_suffix : Bytes → Bytes → Bool
has_suffix s t = has_prefix (reverse s) (reverse t)

-- The order of `sort.Strings`, and the sort.
unfoldable pub at_most : Bytes → Bytes → Bool
at_most [] t = true
at_most (c ∷ s) [] = false
at_most (c ∷ s) (d ∷ t) = if ltb c d then true else c == d && at_most s t

unfoldable pub insert : Bytes → List Bytes → List Bytes
insert x [] = x ∷ []
insert x (y ∷ ys) = if at_most x y then x ∷ (y ∷ ys) else y ∷ insert x ys

unfoldable pub sort : List Bytes → List Bytes
sort [] = []
sort (x ∷ xs) = insert x (sort xs)

-- The loop of `pruneLocked`.
abbrev pub is_rotated : Bytes → Bytes → Bytes → Bool
is_rotated base ext name = has_prefix name (base ++ (b'-' ∷ [])) && has_suffix name ext

unfoldable pub rotated_names : Bytes → Bytes → List File → List Bytes
rotated_names base ext [] = []
rotated_names base ext (f ∷ fs) =
    if not f.is_dir && is_rotated base ext f.name
    then f.name ∷ rotated_names base ext fs
    else rotated_names base ext fs

unfoldable pub delete_each : (Bytes → Bool) → List Bytes → List File → List File
delete_each removes [] fs = fs
delete_each removes (name ∷ names) fs =
    delete_each removes names (if removes name then without name fs else fs)

-- The names that `pruneLocked` deletes: all but the last of them.
unfoldable pub doomed : ℕ → List Bytes → List Bytes
doomed max_files names =
    if leb (length names) max_files then [] else take (length names - max_files) (sort names)

-- `pruneLocked`.
unfoldable pub prune : World → Logger → Logger
prune w l =
    if w.lists
    then record l {
      files =
          delete_each w.removes (doomed l.max_files (rotated_names l.base l.ext l.files)) l.files;
    }
    else l

abbrev pub rotated_name : World → Logger → Bytes
rotated_name w l = l.base ++ (b'-' ∷ (w.rotation_stamp ++ l.ext))

-- `os.Rename`, or else `os.Remove`.
unfoldable pub set_aside : World → Logger → Logger
set_aside w l =
    if w.renames
    then record l { files = rename (active l) (rotated_name w l) l.files }
    else if w.removes (active l)
    then record l { files = without (active l) l.files }
    else l

unfoldable pub to_console : Bytes → Logger → Logger
to_console line l = if l.has_console then record l { console = l.console ++ (line ∷ []) } else l

-- The error of `openFile`, on the console.
unfoldable pub tell_open_error : World → Logger → Logger
tell_open_error w l =
    if w.opens && w.stats
    then l
    else to_console (codes "could not reopen the log file: " ++ (w.open_error ++ (10 ∷ []))) l

-- `rotateLocked`.
unfoldable pub rotate : World → Logger → Logger
rotate w l =
    if l.file
    then tell_open_error w (open_file w (prune w (set_aside w (record l { file = false }))))
    else l

-- `l.file.WriteString` and the new size.
unfoldable pub write_string : Option ℕ → Bytes → Logger → Logger
write_string (some n) line l =
    if l.file then record l { files = append_to (active l) (take n line) l.files } else l
write_string none line l =
    if l.file
    then record l { files = append_to (active l) line l.files; size = l.size + length line }
    else l

unfoldable pub to_file : World → Bytes → Logger → Logger
to_file w line l =
    if not l.file
    then l
    else if ltb l.max_size (l.size + length line)
    then write_string w.cut_short line (rotate w l)
    else write_string w.cut_short line l

unfoldable pub skip_line_ends : Bytes → Bytes
skip_line_ends [] = []
skip_line_ends (c ∷ s) = if c == 10 || c == 13 then skip_line_ends s else c ∷ s

-- The line of a message: `strings.TrimRight`, `Redact`, and the format.
unfoldable pub line_of : World → Level → Bytes → Bytes
line_of w level msg =
    w.stamp
    ++ (codes " ["
        ++ (level_name level
            ++ (codes "] " ++ (redact (reverse (skip_line_ends (reverse msg))) ++ (10 ∷ [])))))

-- `logf`, for a message that is formatted.
unfoldable pub logf : World → Level → Bytes → Logger → Logger
logf w level msg l =
    if l.closed || ltb (rank level) (rank l.level)
    then l
    else to_file w (line_of w level msg) (to_console (line_of w level msg) l)

-- `SetLevel`.
unfoldable pub set_level : Level → Logger → Logger
set_level level l = record l { level = level }

-- `SetRotation`; an argument that is not positive is 0 here.
unfoldable pub set_rotation : ℕ → ℕ → Logger → Logger
set_rotation max_size max_files l = record l {
  max_size = if ltb 0 max_size then max_size else l.max_size;
  max_files = if ltb 0 max_files then max_files else l.max_files;
}

-- `Close`; what closing the file answers is passed on by the caller.
unfoldable pub close : Logger → Logger
close l = if l.closed then l else record l { closed = true; file = false }

-- `New`, for a name of the file with its two parts. `made` says whether there is a directory and, if so,
-- whether it could be made; without one, or without its file, the logger writes to the console only. The
-- error is left out.
unfoldable pub opened_if : World → Option Bool → Logger → Logger
opened_if w none l = l
opened_if w (some false) l = l
opened_if w (some true) l = open_file w l

unfoldable pub new_logger :
    World → Option Bool → Level → Bool → ℕ → ℕ → Bytes → Bytes → List File → Logger
new_logger w made level has_console max_size max_files base ext files = opened_if w made (record {
  level = level;
  base = base;
  ext = ext;
  file = false;
  size = 0;
  has_console = has_console;
  console = [];
  closed = false;
  max_size = if max_size == 0 then 8 * 2 ^ 20 else max_size;
  max_files = if max_files == 0 then 5 else max_files;
  files = files;
})
