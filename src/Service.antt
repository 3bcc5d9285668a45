-- ===== src/Service.antt =====
-- internal/service: the manager that starts and stops the tunnel, and steps aside for another client.
pub mod Conflict
pub mod Manager
pub mod Control
pub mod Steps
pub mod Reload
