-- ===== src/Tests/Logs.antt =====
-- The log: what is struck out of a line, and the rotation of the file.
use awgsocks.Base.{
  ℕ, ◌≡◌, refl, true, false, List, [], ◌∷◌, ◌++◌, none, some, Bytes, arith, codes, suc, zero,
}
use awgsocks.Logging.Redact.{
  redact, hex_pass, base64_pass, assign_pass, assign_ahead, label_ahead, or_else, key_ahead,
  skip_joint, word_ahead, letter, separator, skip_blanks, value_ahead, skip_value, hex_ahead,
  base64_ahead, redact_uapi, written_lines, written_as, is_secret_key, trim_right_newlines,
}
use awgsocks.Logging.Redact.Clean.{IsClean, line_of-IsClean}
use awgsocks.Logging.Logger.{
  new_logger, info, debug, File, Logger, World, line_of, skip_line_ends, rotated_names, prune,
  doomed, delete_each, sort, insert, at_most, has_suffix, content_of, rotate, set_aside, rename,
  open_file, created, tell_open_error,
}
use awgsocks.Logging.Logger.Size.{IsBounded}
use awgsocks.Logging.Logger.History.{Op, logs, sets_rotation, perform_all, new_logger-IsBounded}
use awgsocks.Logging.Logger.Pruned.{IsPruned, prune-keeps_newest}
use awgsocks.Logging.Logger.Members.{IsDistinct}
use awgsocks.Strings.{has_prefix, to_lower, trim_space, split, cut}

abbrev repeated : ℕ → ℕ → Bytes
repeated zero c = []
repeated (suc n) c = c ∷ repeated n c

label_struck : redact (codes "set Private_Key = abc= now") ≡ codes "set Private_Key =[REDACTED] now"
unfolding redact hex_pass base64_pass assign_pass assign_ahead label_ahead or_else key_ahead
    skip_joint word_ahead letter separator skip_blanks value_ahead skip_value hex_ahead base64_ahead
    has_prefix
label_struck = refl

hex_struck :
    redact (codes "key " ++ (repeated 64 b'a' ++ codes " end")) ≡ codes "key [REDACTED] end"
unfolding redact hex_pass base64_pass assign_pass assign_ahead label_ahead or_else key_ahead
    skip_joint word_ahead letter separator skip_blanks value_ahead skip_value hex_ahead base64_ahead
    has_prefix
hex_struck = refl

base64_struck :
    redact (codes "key " ++ (repeated 43 b'A' ++ codes "= end")) ≡ codes "key [REDACTED] end"
unfolding redact hex_pass base64_pass assign_pass assign_ahead label_ahead or_else key_ahead
    skip_joint word_ahead letter separator skip_blanks value_ahead skip_value hex_ahead base64_ahead
    has_prefix
base64_struck = refl

-- A key whose first digit is `+` stands behind no word boundary, and stays.
abbrev plus_key : Bytes
plus_key = codes "key +" ++ (repeated 42 b'A' ++ codes "= end")

plus_key_stays : redact plus_key ≡ plus_key
unfolding redact hex_pass base64_pass assign_pass assign_ahead label_ahead or_else key_ahead
    skip_joint word_ahead letter separator skip_blanks value_ahead skip_value hex_ahead base64_ahead
    has_prefix
plus_key_stays = refl

uapi_blanked :
    redact_uapi (λ c. c) (codes "private_key=ab" ++ (10 ∷ codes "jc=4"))
    ≡ codes "private_key=[REDACTED]" ++ (10 ∷ codes "jc=4")
unfolding redact_uapi written_lines written_as is_secret_key trim_right_newlines to_lower trim_space
    split cut
uapi_blanked = refl

abbrev usual : World
usual = record {
  stamp = codes "2025-01-02 03:04:05.678";
  rotation_stamp = codes "20250102-030405";
  renames = true;
  removes = λ name. true;
  lists = true;
  opens = true;
  stats = true;
  open_error = [];
  cut_short = none;
}

line_of-IsClean_example : IsClean (line_of usual info (repeated 64 b'a'))
line_of-IsClean_example =
    line_of-IsClean usual info (repeated 64 b'a') (unfold hex_ahead base64_ahead in (refl, refl))

abbrev named : Bytes → Bytes → File
named name content = record { name = name; content = content; is_dir = false }

-- Two rotated files beside a log of four bytes, with a limit of forty bytes and one rotated file.
abbrev logger : Logger
logger = record {
  level = debug;
  base = codes "a";
  ext = codes ".log";
  file = true;
  size = 4;
  has_console = false;
  console = [];
  closed = false;
  max_size = 40;
  max_files = 1;
  files =
      named (codes "a.log") (1 ∷ 2 ∷ 3 ∷ 4 ∷ [])
      ∷ named (codes "a-2.log") []
      ∷ named (codes "a-1.log") []
      ∷ [];
}

abbrev two_lines : List Op
two_lines = logs usual info (codes "hi") ∷ sets_rotation 50 3 ∷ logs usual info (codes "ho") ∷ []

new_logger-IsBounded_example : IsBounded 100 (
    perform_all two_lines
      (new_logger usual (some true) debug false 40 1 (codes "a") (codes ".log") logger.files))
new_logger-IsBounded_example =
    new_logger-IsBounded 100 usual (some true) debug false 40 1 (codes "a") (codes ".log")
      logger.files two_lines (omega arith) (omega arith)
      (unfold line_of redact skip_line_ends hex_pass base64_pass assign_pass assign_ahead
          label_ahead or_else key_ahead skip_joint word_ahead letter hex_ahead base64_ahead
          has_prefix in
        (
          ((refl, refl, refl, refl), omega arith),
          (omega arith, (((refl, refl, refl, refl), omega arith), tt)),
        ))

newest_kept : rotated_names logger.base logger.ext (prune usual logger).files ≡ codes "a-2.log" ∷ []
unfolding rotated_names prune delete_each doomed sort insert at_most has_suffix has_prefix
newest_kept = refl

-- A second rotation within the second takes the name of the first, and its file's place.
first_line_lost :
    content_of (codes "a-20250102-030405.log") (rotate usual (rotate usual logger)).files ≡ some []
unfolding rotate set_aside rename open_file created tell_open_error prune delete_each doomed sort
    insert at_most rotated_names has_suffix has_prefix
first_line_lost = refl

rotated-IsDistinct : IsDistinct (rotated_names logger.base logger.ext logger.files)
unfolding rotated_names has_suffix has_prefix
rotated-IsDistinct = (refl, (refl, tt))

prune-keeps_newest_example : IsPruned logger (prune usual logger)
prune-keeps_newest_example = prune-keeps_newest usual logger refl (λ name. refl) rotated-IsDistinct
