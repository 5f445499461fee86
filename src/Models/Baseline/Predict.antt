-- ===== src/Models/Baseline/Predict.antt =====
-- pkg/models/baseline.go: the forecast of the baseline.
pub mod Bounds
use kedastral.Base.{
  ℕ, zero, suc, ◌+◌, ◌/◌, ◌==◌, String, Bool, true, false, Option, none, some, List, [], ◌∷◌, ltb,
  leb, length, take, drop, if◌then◌else◌, ◌&&◌,
}
use kedastral.Base.Int.{ℤ, pos, negsuc, leb_ℤ, eqb_ℤ, ◌+ℤ◌, ◌-ℤ◌, ◌*ℤ◌, quot, wrap64}
use kedastral.Base.Dict.{lookup}
use kedastral.Base.Result.{Result, ok, err}
use kedastral.Float64.{Float64, int_lit}
use kedastral.Features.{FeatureFrame}
use kedastral.Forecaster.Tick.{Forecast}
use kedastral.Models.Series.{tabulate, last_n}
use kedastral.Models.Outlook.{ModelError, no_rows, no_values, panics, num_steps, last_or_zero}
use kedastral.Base.Buckets.{Buckets, find_bucket}
use kedastral.Models.Baseline.{SeasonalPattern, BaselineModel}

-- `a % b`, with the sign of `a`
unfoldable pub rem : ℤ → ℤ → ℤ
unfolding ◌-ℤ◌ ◌*ℤ◌ quot
rem a b = a -ℤ quot a b *ℤ b

-- The sums of the regression.
pub record Sums {ℓ} (F : Type ℓ) : Type ℓ where
  pub sum_x : F
  pub sum_y : F
  pub sum_xy : F
  pub sum_x2 : F

module _ {ℓ} {F : Type ℓ} ⦃fl : Float64 F⦄ where
  -- The values of the rows that have one.
  unfoldable pub present_values : FeatureFrame F → List F
  present_values [] = []
  present_values (row ∷ rows) = elim (lookup "value" row) [
    | none ↦ present_values rows
    | some v ↦ v ∷ present_values rows
  ]

  -- `int(lastRow[key])`, and -1 without it
  unfoldable pub last_time : String → FeatureFrame F → ℤ
  last_time key [] = negsuc 0
  last_time key (row ∷ []) = elim (lookup key row) [ none ↦ negsuc 0 | some x ↦ fl.trunc x ]
  last_time key (row ∷ next ∷ rows) = last_time key (next ∷ rows)

  -- The loop from the place `i` on.
  unfoldable pub regress : ℕ → List F → Sums F → Sums F
  regress i [] s = s
  regress i (y ∷ ys) s =
      let x = int_lit i in
      regress (i + 1) ys record {
        sum_x = fl.add s.sum_x x;
        sum_y = fl.add s.sum_y y;
        sum_xy = fl.add s.sum_xy (fl.mul x y);
        sum_x2 = fl.add s.sum_x2 (fl.mul x x);
      }

  unfoldable pub detect_trend : List F → F
  unfolding regress last_n
  detect_trend values =
      let window = last_n (if leb (length values) 10 then length values else 10) values in
      let n = int_lit (length window) in
      let start : Sums F = record {
        sum_x = int_lit 0;
        sum_y = int_lit 0;
        sum_xy = int_lit 0;
        sum_x2 = int_lit 0;
      } in
      let s = regress 0 window start in
      let denominator = fl.sub (fl.mul n s.sum_x2) (fl.mul s.sum_x s.sum_x) in
      let slope = fl.div (fl.sub (fl.mul n s.sum_xy) (fl.mul s.sum_x s.sum_y)) denominator in
      if ltb (length values) 2
      then int_lit 0
      else if fl.eq denominator (int_lit 0)
      then int_lit 0
      else fl.div slope (int_lit 60)

  unfoldable pub detect_momentum : List F → F
  unfolding detect_trend
  detect_momentum values =
      let mid = length values / 2 in
      if ltb (length values) 6
      then int_lit 0
      else fl.sub (detect_trend (drop mid values)) (detect_trend (take mid values))

  -- The value of a pattern, towards its largest under an upward momentum.
  unfoldable pub pattern_value : F → SeasonalPattern F → F
  pattern_value momentum p =
      if fl.lt (int_lit 0) momentum && fl.lt p.mean p.max
      then fl.add (fl.mul (fl.decimal 7 1) p.mean) (fl.mul (fl.decimal 3 1) p.max)
      else p.mean

  -- The pattern for the time `ahead` after `now`, on a clock of `size`.
  unfoldable pub pattern_at : ℤ → ℤ → ℤ → Buckets (SeasonalPattern F) → Option (SeasonalPattern F)
  unfolding find_bucket rem wrap64 ◌+ℤ◌
  pattern_at now ahead size patterns =
      if leb_ℤ (pos 0) now && ltb 0 (length patterns)
      then find_bucket (rem (wrap64 (now +ℤ ahead)) size) patterns
      else none

  -- The pattern by minute, else the one by hour.
  unfoldable pub seasonal_pattern : BaselineModel F → ℤ → ℤ → ℤ → Option (SeasonalPattern F)
  unfolding pattern_at quot
  seasonal_pattern m minute hour seconds_ahead =
      elim (pattern_at minute (quot seconds_ahead (pos 60)) (pos 60) m.minute_seasonality) [
        | some p ↦ some p
        | none ↦ pattern_at hour (quot seconds_ahead (pos 3600)) (pos 24) m.hour_seasonality
      ]

  unfoldable pub weighted : F → F → F → F → F
  weighted a x b y = fl.add (fl.mul a x) (fl.mul b y)

  -- The two predictions by how far the seasonal one stands above the other.
  unfoldable pub blend : F → F → F
  unfolding weighted
  blend base seasonal =
      let ratio = fl.div seasonal (fl.add base (fl.decimal 10 1)) in
      if fl.lt (fl.decimal 15 1) ratio
      then weighted (fl.decimal 2 1) base (fl.decimal 8 1) seasonal
      else if fl.lt (fl.decimal 12 1) ratio
      then weighted (fl.decimal 3 1) base (fl.decimal 7 1) seasonal
      else if fl.lt ratio (fl.decimal 8 1)
      then weighted (fl.decimal 4 1) base (fl.decimal 6 1) seasonal
      else weighted (fl.decimal 5 1) base (fl.decimal 5 1) seasonal

  -- `basePrediction`
  unfoldable pub extrapolate : F → F → F → F → F
  extrapolate current trend momentum t =
      fl.add (fl.add current (fl.mul trend t))
        (fl.div (fl.mul (fl.mul (fl.mul (fl.decimal 5 1) momentum) t) t) (int_lit 60))

  -- `finalValue`, before it is kept from below 0.
  unfoldable pub final_value : Option (SeasonalPattern F) → F → F → F
  unfolding blend pattern_value
  final_value none momentum base = base
  final_value (some p) momentum base = blend base (pattern_value momentum p)

  -- The value at step `i`. `(i + 1) * stepSec` is at most the horizon, so it does not wrap.
  unfoldable pub baseline_value : BaselineModel F → FeatureFrame F → List F → ℕ → F
  unfolding last_time detect_trend detect_momentum last_or_zero seasonal_pattern final_value
      extrapolate ◌*ℤ◌
  baseline_value m features values i =
      let seconds_ahead = pos (i + 1) *ℤ m.step_sec in
      let momentum = detect_momentum values in
      let base =
        extrapolate (last_or_zero values) (detect_trend values) momentum
          (fl.of_int seconds_ahead) in
      let final =
        final_value
          (seasonal_pattern m (last_time "minute" features) (last_time "hour" features)
            seconds_ahead)
          momentum base in
      if fl.lt final (int_lit 0) then int_lit 0 else final

  unfoldable pub baseline_quantile : F → F → List F → List F
  baseline_quantile z std_dev [] = []
  baseline_quantile z std_dev (v ∷ vs) =
      fl.fmax (int_lit 0) (fl.add v (fl.mul z std_dev)) ∷ baseline_quantile z std_dev vs

  unfoldable pub baseline_quantiles : F → List F → List (F × List F)
  unfolding baseline_quantile
  baseline_quantiles std_dev values =
      if fl.lt (int_lit 0) std_dev
      then (fl.decimal 50 2, baseline_quantile (int_lit 0) std_dev values)
        ∷ (fl.decimal 75 2, baseline_quantile (fl.decimal 674 3) std_dev values)
        ∷ (fl.decimal 90 2, baseline_quantile (fl.decimal 1282 3) std_dev values)
        ∷ (fl.decimal 95 2, baseline_quantile (fl.decimal 1645 3) std_dev values)
        ∷ []
      else []

  unfoldable pub baseline_forecast : FeatureFrame F → List F → BaselineModel F → Forecast F
  unfolding baseline_value baseline_quantiles tabulate num_steps
  baseline_forecast features present m =
      let values =
        tabulate (num_steps m.step_sec m.horizon) 0 (baseline_value m features present) in
      record {
        metric = m.metric;
        values = values;
        step_sec = m.step_sec;
        horizon = m.horizon;
        quantiles = some (baseline_quantiles m.residual_std_dev values);
      }

  unfoldable pub baseline_predict :
      FeatureFrame F → BaselineModel F → Result ModelError (Forecast F)
  unfolding present_values baseline_forecast
  baseline_predict [] m = err no_rows
  baseline_predict (row ∷ rows) m =
      let present = present_values (row ∷ rows) in
      if length present == 0
      then err no_values
      else if eqb_ℤ m.step_sec (pos 0)
      then err panics
      else ok (baseline_forecast (row ∷ rows) present m)
