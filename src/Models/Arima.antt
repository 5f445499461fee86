-- ===== src/Models/Arima.antt =====
-- pkg/models/arima.go: `ARIMAModel`, its construction, training and prediction. A value that is not
-- constructed by `NewARIMAModel` is outside the model, so orders are not negative.
pub mod Fitted
pub mod Sane
use kedastral.Base.{
  ℕ, ◌+◌, ◌-◌, ◌==◌, String, Bool, true, false, Option, none, some, List, [], ◌∷◌, map, ltb, leb,
  length, if◌then◌else◌, ◌||◌, str_eq,
}
use kedastral.Base.Int.{ℤ, pos, pos_part, ltb_ℤ, leb_ℤ}
use kedastral.Base.Result.{Result, ok, err, ◌>>=◌}
use kedastral.Float64.{Float64, int_lit}
use kedastral.Features.{FeatureFrame}
use kedastral.Forecaster.Tick.{Forecast}
use kedastral.Models.Series.{
  replicate, last_n, difference, compute_mean, fit_ar, compute_residuals, fit_ma, residual_std_dev,
}
use kedastral.Models.Outlook.{
  ModelError, canceled, too_few_points, not_trained, panics, num_steps, values_from, last_or_zero,
  lagged_sum, damping_factor, predict_loop, quantiles_of,
}

pub record ArimaModel {ℓ} (F : Type ℓ) : Type ℓ where
  pub metric : String
  pub step_sec : ℤ
  pub horizon_sec : ℤ
  pub p : ℕ
  pub d : ℕ
  pub q : ℕ
  pub trained : Bool
  pub ar_coeffs : List F
  pub ma_coeffs : List F
  pub mean : F
  pub last_values : List F
  pub last_errors : List F
  pub residual_std_dev : F

-- An order of 0 stands for 1.
abbrev pub order_or_one : ℤ → ℕ
order_or_one n = if pos_part n == 0 then 1 else pos_part n

-- The largest of three numbers.
abbrev pub max_of : ℕ → ℕ → ℕ
max_of a b = if leb a b then b else a

module _ {ℓ} {F : Type ℓ} ⦃fl : Float64 F⦄ where
  -- `none` is a panic.
  unfoldable pub new_arima : String → ℤ → ℤ → ℤ → ℤ → ℤ → Option (ArimaModel F)
  new_arima metric step_sec horizon_sec p d q =
      if str_eq metric ""
        || leb_ℤ step_sec (pos 0)
        || ltb_ℤ horizon_sec step_sec
        || (ltb_ℤ d (pos 0) || ltb_ℤ (pos 2) d)
        || ltb_ℤ p (pos 0)
        || ltb_ℤ q (pos 0)
      then none
      else some record {
        metric = metric;
        step_sec = step_sec;
        horizon_sec = horizon_sec;
        p = order_or_one p;
        d = order_or_one d;
        q = order_or_one q;
        trained = false;
        ar_coeffs = [];
        ma_coeffs = [];
        mean = int_lit 0;
        last_values = [];
        last_errors = [];
        residual_std_dev = int_lit 0;
      }

  -- `minPoints`, for orders whose sums fit an `int`
  abbrev pub arima_min_points : ArimaModel F → ℕ
  arima_min_points m = max_of (max_of (m.p + m.d) (m.q + m.d)) 10

  -- The series that the coefficients are fitted to: differenced, less its mean.
  unfoldable pub arima_centered : ArimaModel F → List F → List F
  unfolding difference compute_mean
  arima_centered m values =
      let stationary = difference m.d values in
      map (λ v. fl.sub v (compute_mean stationary)) stationary

  unfoldable pub arima_residuals : ArimaModel F → List F → List F
  unfolding fit_ar compute_residuals arima_centered
  arima_residuals m values =
      let centered = arima_centered m values in compute_residuals centered (fit_ar centered m.p) m.p

  -- `lastErrors`: zeros when there are too few residuals.
  unfoldable pub arima_last_errors : ℕ → List F → List F
  unfolding last_n replicate
  arima_last_errors q residuals =
      if leb q (length residuals) then last_n q residuals else replicate q (int_lit 0)

  -- The model that is fitted to enough values.
  unfoldable pub arima_fit : ArimaModel F → List F → ArimaModel F
  unfolding arima_residuals fit_ma arima_last_errors residual_std_dev
  arima_fit m values =
      let residuals = arima_residuals m values in
      record m {
        trained = true;
        ar_coeffs = fit_ar (arima_centered m values) m.p;
        ma_coeffs = fit_ma residuals m.q;
        mean = compute_mean (difference m.d values);
        last_values = last_n m.p values;
        last_errors = arima_last_errors m.q residuals;
        residual_std_dev = residual_std_dev residuals;
      }

  unfoldable pub arima_train :
      Bool → FeatureFrame F → ArimaModel F → Result ModelError (ArimaModel F)
  unfolding values_from arima_fit
  arima_train live history m =
      if live
      then (values_from 0 history >>= λ values.
          (if ltb (length values) (arima_min_points m)
            then err too_few_points
            else ok (arima_fit m values)))
      else err canceled

  -- The prediction at `t = 0`, before its limits. `none` is an index out of range.
  unfoldable pub arima_first : ArimaModel F → Option F
  unfolding lagged_sum last_or_zero
  arima_first m = elim (lagged_sum m.p m.ar_coeffs m.last_values) [
    | none ↦ none
    | some ar_pred ↦ elim (lagged_sum m.q m.ma_coeffs m.last_errors) [
      | none ↦ none
      | some ma_pred ↦
          some
            (fl.add (last_or_zero m.last_values) (fl.mul (fl.add ar_pred ma_pred) (fl.decimal 1 1)))
    ]
  ]

  -- The prediction at `t`, after the predictions before it.
  unfoldable pub arima_next : F → F → List F → F
  unfolding damping_factor last_or_zero
  arima_next base first [] = first
  arima_next base first (x ∷ preds) =
      let factor = damping_factor (length (x ∷ preds)) in
      let pred =
        fl.add (fl.mul base (fl.decimal 9 1))
          (fl.mul (last_or_zero (x ∷ preds)) (fl.decimal 1 1)) in
      fl.add (fl.mul pred factor) (fl.mul base (fl.sub (int_lit 1) factor))

  unfoldable pub arima_values : ArimaModel F → F → List F
  unfolding predict_loop arima_next num_steps last_or_zero
  arima_values m first =
      let base = last_or_zero m.last_values in
      predict_loop (num_steps m.step_sec m.horizon_sec) (arima_next base first) base []

  unfoldable pub arima_forecast : ArimaModel F → F → Forecast F
  unfolding arima_values quantiles_of
  arima_forecast m first =
      let values = arima_values m first in
      record {
        metric = m.metric;
        values = values;
        step_sec = m.step_sec;
        horizon = m.horizon_sec;
        quantiles = some (quantiles_of m.residual_std_dev values);
      }

  unfoldable pub arima_predict : Bool → ArimaModel F → Result ModelError (Forecast F)
  unfolding arima_first arima_forecast
  arima_predict live m =
      if live
      then if m.trained
        then elim (arima_first m) [ none ↦ err panics | some first ↦ ok (arima_forecast m first) ]
        else err not_trained
      else err canceled
