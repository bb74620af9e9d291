-- ===== src/Tests.antt =====
-- Concrete inputs at which the theorems apply.
pub mod Tables
pub mod Caches
pub mod Names
pub mod Servers
pub mod Watchers
pub mod Configs
pub mod Hosts
pub mod Residents
