-- ===== src/Socks5.antt =====
-- internal/socks5: the loopback-only SOCKS5 front end.
pub mod Target
pub mod Datagram
pub mod Failure
pub mod Session
pub mod Stats
pub mod Connect
pub mod Relay
pub mod Handle
pub mod Listener
