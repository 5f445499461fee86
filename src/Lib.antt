-- ===== src/Lib.antt =====
-- kedastral: predictive autoscaling for Kubernetes. A forecaster collects the metrics of a workload,
-- predicts them, plans replica counts for the predicted load and keeps the latest plan in a store; an
-- external scaler asks for it over HTTP and tells KEDA how many replicas to run.
--
-- The parts, and how they are modelled:
--   Base          shared helpers: Boolean tests and lists over the native numbers, ℤ with the wrap-around
--                 of an int64, maps keyed by strings, results, durations, the pattern of a workload name.
--   Float64       float64 as an interface: its operations, and the facts of IEEE 754 and of package math
--                 that theorems use (IsFloat64). Float64.Scaled is a number type with these facts, in
--                 thousandths, on which tests and witnesses run.
--   Capacity      pkg/capacity: Planner is planner.go (Policy, to_replicas for ToReplicas, clamp_bounds,
--                 clamp_change, round_pods), Quantile is ParseQuantileLevel of quantile.go.
--   Storage       pkg/storage: Snapshot is store.go, Memory is memory.go. A method of MemoryStore holds
--                 the mutex while it uses the map, so it is one function on the state; interleavings are
--                 sequences of calls. Redis is redis.go over the client and package json (Redis.Server).
--   Models        pkg/models: Series has the statistics that arima.go and sarima.go are fitted with,
--                 Outlook what both do around their equations, Arima, Sarima and Baseline a model each
--                 (arima_train and arima_predict for Train and Predict, and so on).
--   Config        cmd/forecaster/config/config.go: WorkloadConfig and validate_workload, and the ADAPTER_
--                 variables (split_env, to_lower_camel_case).
--   Controller    cmd/forecaster/controller: Translate is translate.go, Reconcile is controller.go and
--                 scaledobject.go with the manager of cmd/forecaster/operator.go over the registry.
--   Durations     pkg/durationx: Parse, with day and week units.
--   Features      pkg/features/builder.go: build_features and fill_missing_values.
--   Forecaster    cmd/forecaster: Tick is WorkloadForecaster of forecaster.go with each branch of tick,
--                 Served its loop over the memory store, Build is build.go and models/model.go, Routes is
--                 router/router.go; EndToEnd and Promise join them with the scaler. Registry is
--                 MultiForecaster.
--   Adapters      pkg/adapters: Range is AggregateRangeResult, Collect the Collect of the Prometheus and
--                 VictoriaMetrics adapters, Factory the New of factory.go.
--   Backtest      pkg/backtest: Metrics, Series and Run are metrics.go, series.go and backtest.go (run
--                 for Run, walk for its loop, score_window for a window with a forecast).
--   Scaler        cmd/scaler/scaler.go: the calls of the external scaler with what they record.
--
-- Conventions: an error is a value of the component's result type, and `none` where a Go function would
-- panic or exit. A panic of a model, which the loop of a workload recovers before it ends, is an answer of
-- its own (panicked of Called, model_panicked), and a panic of its constructor an error of Build. An int
-- is an ℤ whose wrap-around is written out where the code can reach it (window ends, durations times a
-- factor, the steps of a backtest, the points that SARIMA asks for); the orders of ARIMA are taken to be
-- small; replica counts come from conversions of floats and are compared only.
-- The clock, HTTP, JSON, the clients of Redis and Kubernetes, package strconv and package time are
-- parameters. A loop runs over a list, or a number of rounds that the code fixes before it. Fuel bounds
-- two loops: the scan of a Redis server (scan_loop), where a bound follows from the pages that the
-- server answers, and the walk of a backtest (walk), whose fuel of one round for each point of the
-- series covers every evaluation point. The iteration order of a Go map is the order of a list, or an
-- argument (visit).
--
-- Not modelled: the model behind an HTTP endpoint (byom.go) and the generic HTTP adapter (http.go),
-- which are further parts of the program; process start-up, logging, TLS, generated code and the MCP
-- server, which only connect libraries; log lines and measured durations.
pub mod Adapters
pub mod Backtest
pub mod Base
pub mod Capacity
pub mod Config
pub mod Controller
pub mod Durations
pub mod Features
pub mod Float64
pub mod Forecaster
pub mod Models
pub mod Scaler
pub mod Storage
