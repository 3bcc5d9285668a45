-- ===== src/Tests.antt =====
-- The theorems at concrete inputs.
mod Front
mod RelayRuns
mod Names
mod Settings
mod Tunnel
mod Manager
mod Queues
mod Logs
mod Installing
