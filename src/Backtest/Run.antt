-- ===== src/Backtest/Run.antt =====
-- pkg/backtest/backtest.go: the walk over a series. The model that the factory makes is a parameter.
pub mod Counts
pub mod Reported
use Prim.Native.Nat.{min}
use kedastral.Base.{
  ℕ, zero, suc, ◌+◌, ◌-◌, ◌^◌, ◌==◌, String, Bool, true, false, Option, none, some, List, [], ◌∷◌,
  ◌++◌, map, ltb, leb, length, take, drop, if◌then◌else◌,
}
use kedastral.Base.Int.{ℤ, pos, pos_part, ltb_ℤ, leb_ℤ, quot}
use kedastral.Base.Result.{Result, ok, err}
use kedastral.Float64.{Float64, int_lit}
use kedastral.Capacity.Planner.{Policy, to_replicas}
use kedastral.Features.{
  Value, time, float64, Calendar, DataFrame, FeatureFrame, FeatureError, build_features,
}
use kedastral.Forecaster.Tick.{Forecast, Called, answered, failed, panicked, seconds}
use kedastral.Backtest.Series.{Series}
use kedastral.Backtest.Metrics.{mae, rmse, mape, under_provisioned_rate, mean_over_provision}

-- What `NewModel` makes, with the calls of it: the constructor and `Train` may panic, which is `none`,
-- and `Predict` may fail or panic. The error of `Train` is dropped.
pub record Factory {ℓ μ} (F : Type ℓ) (M : Type μ) : Type (ℓ ⊔ μ) where
  pub name : String
  pub fresh : Option M
  pub train : FeatureFrame F → M → Option M
  pub predict : FeatureFrame F → M → Called (Forecast F)

-- `none` is the nil factory.
pub record Config {ℓ μ} (F : Type ℓ) (M : Type μ) : Type (ℓ ⊔ μ) where
  pub window : ℤ
  pub horizon : ℤ
  pub step : ℤ
  pub stride : ℤ
  pub new_model : Option (Factory F M)
  pub policy : Policy F

pub record Report {ℓ} (F : Type ℓ) : Type ℓ where
  pub model : String
  pub windows : ℕ
  pub skipped : ℕ
  pub points : ℕ
  pub mae : F
  pub rmse : F
  pub mape : F
  pub under_provisioned_rate : F
  pub mean_over_provision : F

pub data BacktestError : Type 0 where
  no_model bad_step bad_horizon bad_window too_short : BacktestError
  no_windows : ℕ → BacktestError
  -- a panic of the model or of an index out of range, which ends the process
  panics : BacktestError

-- The variables of the walk.
pub record Tally {ℓ} (F : Type ℓ) : Type ℓ where
  pub windows : ℕ
  pub skipped : ℕ
  pub prev_replicas : ℤ
  pub predicted : List F
  pub actual : List F
  pub planned : List ℤ
  pub needed : List ℤ

abbrev pub first_or_else : ℤ → List ℤ → ℤ
first_or_else d [] = d
first_or_else d (r ∷ rs) = r

module _ {ℓ} {F : Type ℓ} where
  unfoldable pub skip_window : Tally F → Tally F
  skip_window t = record t { skipped = t.skipped + 1 }

  -- The start of the walk.
  unfoldable pub new_tally : Policy F → Tally F
  new_tally p = record {
    windows = 0;
    skipped = 0;
    prev_replicas = p.min_replicas;
    predicted = [];
    actual = [];
    planned = [];
    needed = [];
  }

module _ {ℓ} {F : Type ℓ} ⦃fl : Float64 F⦄ where
  unfoldable pub needed_replicas : F → Policy F → ℤ
  needed_replicas value p =
      let required =
        if fl.lt (int_lit 0) p.target_per_pod
        then fl.ceil (fl.div value p.target_per_pod)
        else pos 0 in
      if ltb_ℤ required p.min_replicas then p.min_replicas else required

  -- A window with a forecast: `future` are the values of its horizon. The loop over `k` takes the first
  -- `count` places, and those of the replicas as far as there are any.
  unfoldable pub score_window : Policy F → ℤ → List F → Forecast F → Tally F → Tally F
  unfolding to_replicas needed_replicas
  score_window policy step_sec future fc t =
      let count = min (length fc.values) (length future) in
      let replicas = to_replicas t.prev_replicas fc.values step_sec policy fc.quantiles in
      record {
        windows = t.windows + 1;
        skipped = t.skipped;
        prev_replicas = first_or_else t.prev_replicas replicas;
        predicted = t.predicted ++ take count fc.values;
        actual = t.actual ++ take count future;
        planned = t.planned ++ take count replicas;
        needed =
            t.needed
            ++ map (λ v. needed_replicas v policy) (take (min count (length replicas)) future);
      }

  -- The window of a forecast that may have failed or be empty.
  unfoldable pub judge_window :
      Policy F → ℤ → List F → Called (Forecast F) → Tally F → Option (Tally F)
  unfolding score_window skip_window
  judge_window policy step_sec future failed t = some (skip_window t)
  judge_window policy step_sec future panicked t = none
  judge_window policy step_sec future (answered fc) t =
      some
        (if length fc.values == 0 then skip_window t else score_window policy step_sec future fc t)

module _ {ℓ κ} {F : Type ℓ} {T : Type κ} where
  unfoldable pub history_data_frame : Series T F → ℕ → ℕ → DataFrame F T
  history_data_frame series from to =
      map (λ point. ("ts", time point.0) ∷ ("value", float64 point.1) ∷ [])
        (take (to - from) (drop from series))

module _ {ℓ μ} {F : Type ℓ} {M : Type μ} where
  -- `NewModel`, `Train` and `Predict` on the features of a window.
  unfoldable pub call_model : Factory F M → FeatureFrame F → Called (Forecast F)
  call_model factory frame = elim factory.fresh [
    | none ↦ panicked
    | some m ↦ elim (factory.train frame m) [
      | none ↦ panicked
      | some trained ↦ factory.predict frame trained
    ]
  ]

module _ {ℓ κ μ} {F : Type ℓ} {T : Type κ} {M : Type μ} ⦃fl : Float64 F⦄
    (calendar : Calendar T) where
  -- The round of the walk at `i`, for `window <= i` and `i + horizon` within the series, where the
  -- slices of the source are in range. `none` is a panic of the model.
  unfoldable pub walk_step :
      Factory F M → Policy F → ℤ → ℕ → ℕ → Series T F → ℕ → Tally F → Option (Tally F)
  unfolding history_data_frame build_features judge_window call_model
  walk_step factory policy step_sec window horizon series i t =
      elim (build_features calendar (history_data_frame series (i - window) i)) [
        | err e ↦ some (skip_window t)
        | ok frame ↦
            judge_window policy step_sec (map (λ point. point.1) (take horizon (drop i series)))
              (call_model factory frame) t
      ]

  -- The loop from `i` on; `fuel` bounds its rounds. `i += strideSteps` and `i+horizonSteps` keep 64
  -- bits: past them the sum is negative, which passes the condition of the loop, and the slices of the
  -- next window are out of range. This panic is `none`.
  unfoldable pub walk :
      ℕ → Factory F M → Policy F → ℤ → ℕ → ℕ → ℕ → Series T F → ℕ → Tally F → Option (Tally F)
  unfolding walk_step
  walk zero factory policy step_sec window horizon stride series i t = some t
  walk (suc fuel) factory policy step_sec window horizon stride series i t =
      if leb (i + horizon) (length series)
      then elim (walk_step factory policy step_sec window horizon series i t) [
        | none ↦ none
        | some next ↦
            let rest =
              walk fuel factory policy step_sec window horizon stride series (i + stride) next in
            if ltb (i + stride + horizon) (2 ^ 63) then rest else none
      ]
      else some t

-- The report of a walk.
module _ {ℓ} {F : Type ℓ} ⦃fl : Float64 F⦄ where
  unfoldable pub report_of : String → Tally F → Result BacktestError (Report F)
  unfolding mae rmse mape under_provisioned_rate mean_over_provision
  report_of name t =
      if t.windows == 0 then err (no_windows t.skipped) else elim (mae t.predicted t.actual) [
        | none ↦ err panics
        | some m ↦ elim (rmse t.predicted t.actual) [
          | none ↦ err panics
          | some r ↦ elim (mape t.predicted t.actual) [
            | none ↦ err panics
            | some pct ↦ elim (under_provisioned_rate {F = F} t.planned t.needed) [
              | none ↦ err panics
              | some under ↦ elim (mean_over_provision {F = F} t.planned t.needed) [
                | none ↦ err panics
                | some over ↦ ok record {
                  model = name;
                  windows = t.windows;
                  skipped = t.skipped;
                  points = length t.predicted;
                  mae = m;
                  rmse = r;
                  mape = pct;
                  under_provisioned_rate = under;
                  mean_over_provision = over;
                }
              ]
            ]
          ]
        ]
      ]

abbrev pub steps_in : ℤ → ℤ → ℕ
steps_in d step = pos_part (quot d step)

abbrev pub at_least_one : ℕ → ℕ
at_least_one n = if n == 0 then 1 else n

module _ {ℓ κ μ} {F : Type ℓ} {T : Type κ} {M : Type μ} ⦃fl : Float64 F⦄
    (calendar : Calendar T) where
  -- The walk of a configuration that passes the checks, with fuel for a round at each point.
  unfoldable pub walk_all : Factory F M → Config F M → Series T F → Option (Tally F)
  unfolding walk seconds new_tally quot
  walk_all factory cfg series =
      walk calendar (length series) factory cfg.policy (seconds F cfg.step)
        (steps_in cfg.window cfg.step) (steps_in cfg.horizon cfg.step)
        (at_least_one (steps_in cfg.stride cfg.step)) series (steps_in cfg.window cfg.step)
        (new_tally cfg.policy)

  -- The name of a model, the walk and the report.
  unfoldable pub run_checked :
      Factory F M → Config F M → Series T F → Result BacktestError (Report F)
  unfolding walk_all report_of
  run_checked factory cfg series = elim factory.fresh [
    | none ↦ err panics
    | some m ↦ elim (walk_all factory cfg series) [
      | none ↦ err panics
      | some t ↦ report_of factory.name t
    ]
  ]

  -- The sum of the two step counts keeps 64 bits: past them it is negative, so that no series is too
  -- short, and the first window panics.
  unfoldable pub run : Config F M → Series T F → Result BacktestError (Report F)
  unfolding run_checked quot
  run cfg series =
      let steps = steps_in cfg.window cfg.step + steps_in cfg.horizon cfg.step in
      elim cfg.new_model [
        | none ↦ err no_model
        | some factory ↦
            if leb_ℤ cfg.step (pos 0)
            then err bad_step
            else if ltb_ℤ cfg.horizon cfg.step
            then err bad_horizon
            else if ltb_ℤ cfg.window cfg.step
            then err bad_window
            else if leb (2 ^ 63) steps
            then err panics
            else if ltb (length series) steps
            then err too_short
            else run_checked factory cfg series
      ]
