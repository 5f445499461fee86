-- ===== src/Backtest/Run/Reported.antt =====
-- What a backtest reports.
use kedastral.Base.{ℕ, ◌+◌, ◌≤◌, ◌≡◌, length}
use kedastral.Base.Result.{Result, ok}
use kedastral.Float64.{Float64}
use kedastral.Features.{Calendar}
use kedastral.Backtest.Series.{Series}
use kedastral.Backtest.Metrics.Rates.{IsRate}
use kedastral.Backtest.Run.{Config, Report, Tally, BacktestError, steps_in, at_least_one}
use kedastral.Backtest.Run.Counts.{rounds_left}

module _ {ℓ} {F : Type ℓ} ⦃fl : Float64 F⦄ where
  -- What a report has of the walk that it sums up.
  abbrev IsReport : Tally F → Report F → Type 0
  IsReport t report =
      (report.windows ≡ t.windows)
      × (report.skipped ≡ t.skipped)
      × (1 ≤ report.windows)
      × IsRate report.under_provisioned_rate

module _ {ℓ κ μ} {F : Type ℓ} {T : Type κ} {M : Type μ} ⦃fl : Float64 F⦄
    (calendar : Calendar T) where
  -- What is promised of a report.
  abbrev pub IsSound : Config F M → Series T F → Report F → Type 0
  IsSound cfg series report =
      (report.windows + report.skipped
        ≡ rounds_left (length series) (steps_in cfg.horizon cfg.step)
            (at_least_one (steps_in cfg.stride cfg.step)) (steps_in cfg.window cfg.step))
      × (1 ≤ report.windows)
      × IsRate report.under_provisioned_rate

  -- What holds of the result of a backtest whether or not its model panics.
  abbrev IsSoundReport : Config F M → Series T F → Result BacktestError (Report F) → Type ℓ
  IsSoundReport cfg series r = (report : Report F) → r ≡ ok report → IsSound cfg series report

  -- The checks of a configuration, up to the walk.
  abbrev steps_of : Config F M → ℕ
  steps_of cfg = steps_in cfg.window cfg.step + steps_in cfg.horizon cfg.step
