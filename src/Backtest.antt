-- ===== src/Backtest.antt =====
-- pkg/backtest: the replay of a series through a model and the planner. Metrics is metrics.go, Series
-- series.go, and Run backtest.go.
pub mod Metrics
pub mod Series
pub mod Run
pub mod Tests
