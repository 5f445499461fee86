-- ===== src/Storage.antt =====
-- pkg/storage: forecast snapshots and the stores that keep the latest one of each workload.
pub mod Snapshot
pub mod Memory
pub mod Tests
pub mod Redis
