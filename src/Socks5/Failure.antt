-- ===== src/Socks5/Failure.antt =====
-- internal/socks5/errors.go: the reply code for a failed dial or lookup.
pub mod Codes
use awgsocks.Base.{ℕ, Bool, ◌||◌, Option, none, some, ◌≡◌, codes, ◌==◌, if◌then◌else◌}
use awgsocks.Strings.{Text, to_lower, contains}

abbrev pub rep_success : ℕ
rep_success = 0

abbrev pub rep_general_failure : ℕ
rep_general_failure = 1

abbrev pub rep_network_unreachable : ℕ
rep_network_unreachable = 3

abbrev pub rep_host_unreachable : ℕ
rep_host_unreachable = 4

abbrev pub rep_connection_refused : ℕ
rep_connection_refused = 5

abbrev pub rep_command_not_supported : ℕ
rep_command_not_supported = 7

abbrev pub rep_addr_type_not_supported : ℕ
rep_addr_type_not_supported = 8

-- A Go error: what `errors.Is` says of it for each sentinel that the program asks for, and its text.
pub record GoError : Type 0 where
  pub tunnel_down : Bool
  pub not_ready : Bool
  pub no_dns : Bool
  pub deadline_exceeded : Bool
  pub canceled : Bool
  pub message : Text

-- `lower_other` is the Unicode table of `strings.ToLower` beyond ASCII.
module _ (lower_other : ℕ → ℕ) where
  -- The second switch, on the lower-case message.
  reply_for_message : Text → ℕ → ℕ
  reply_for_message msg fallback =
      if contains msg (codes "connection refused")
      then rep_connection_refused
      else if contains msg (codes "network is unreachable")
      then rep_network_unreachable
      else if contains msg (codes "no route to host") || contains msg (codes "host is unreachable")
      then rep_host_unreachable
      else if fallback == 0
      then rep_general_failure
      else fallback

  unfoldable pub reply_for_error : Option GoError → ℕ → ℕ
  unfolding reply_for_message
  reply_for_error none fallback = rep_success
  reply_for_error (some e) fallback =
      if e.tunnel_down || e.not_ready
      then rep_network_unreachable
      else if e.no_dns
      then rep_host_unreachable
      else if e.deadline_exceeded || e.canceled
      then rep_host_unreachable
      else reply_for_message (to_lower lower_other e.message) fallback
