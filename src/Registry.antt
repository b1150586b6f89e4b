-- ===== src/Registry.antt =====
-- src/core/registry_manager.py: the manager that coordinates hosts, leases and router locks.
pub mod Files
pub mod Hosts
pub mod Leases
pub mod Neighbors
pub mod Locks
mod Tests
