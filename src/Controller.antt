-- ===== src/Controller.antt =====
-- cmd/forecaster/controller: the operator that turns ForecastPolicy resources into workloads.
pub mod Translate
pub mod Reconcile
pub mod Tests
