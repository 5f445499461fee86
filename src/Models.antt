-- ===== src/Models.antt =====
-- pkg/models: the models that forecast a metric. What they share is in Series, the statistics of a
-- series, and Outlook, the forecast that follows the first predicted value.
pub mod Series
pub mod Outlook
pub mod Arima
pub mod Sarima
pub mod Baseline
pub mod Tests
