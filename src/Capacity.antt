-- ===== src/Capacity.antt =====
-- pkg/capacity: from forecasted load to replica counts, and quantile levels.
pub mod Planner
pub mod Quantile
pub mod Tests
