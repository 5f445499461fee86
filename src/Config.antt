-- ===== src/Config.antt =====
-- cmd/forecaster/config/config.go: the configuration of a workload, its validation with the defaults
-- that it fills in, and the parsing of ADAPTER_ variables. The flag package, the environment and the
-- conversions of package strconv are outside.
pub mod Workload
pub mod Valid
pub mod Environment
pub mod Tests
