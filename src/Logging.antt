-- ===== src/Logging.antt =====
-- internal/logging: the log file, and what is struck out before a line reaches it.
pub mod Redact
pub mod Logger
