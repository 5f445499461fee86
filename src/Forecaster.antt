-- ===== src/Forecaster.antt =====
-- cmd/forecaster: the forecast loop of a workload, its construction from a configuration, the registry
-- of running loops, and the HTTP routes that serve the snapshots.
pub mod Tick
pub mod Bounded
pub mod Served
pub mod Routes
pub mod EndToEnd
pub mod Build
pub mod Promise
pub mod Registry
pub mod Tests
