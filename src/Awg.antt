-- ===== src/Awg.antt =====
-- internal/awg: the tunnel.
pub mod Stats
pub mod State
pub mod Dial
pub mod Lookup
pub mod Supervise
pub mod Reload
pub mod Netstack
