-- ===== src/Config.antt =====
-- internal/config: the tunnel configuration.
pub mod Scan
pub mod Values
pub mod Mtu
pub mod Semantics
pub mod Params
pub mod Checks
pub mod Validate
pub mod Finalize
pub mod App
pub mod Parse
