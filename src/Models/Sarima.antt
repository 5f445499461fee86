-- ===== src/Models/Sarima.antt =====
-- pkg/models/sarima.go: `SARIMAModel`, its construction, training and prediction. A seasonal order is
-- `sp`, `sd` or `sq` and the period `s`; as for ARIMA, values not made by the constructor are left out.
pub mod Seasons
pub mod Fitted
pub mod Outcome
use kedastral.Base.{
  ℕ, zero, suc, ◌+◌, ◌-◌, ◌*◌, ◌==◌, String, Bool, true, false, Option, none, some, List, [], ◌∷◌,
  map, ltb, leb, length, if◌then◌else◌, ◌||◌, ◌&&◌, str_eq,
}
use kedastral.Base.Int.{ℤ, pos, pos_part, ltb_ℤ, leb_ℤ, wrap64}
use kedastral.Base.Result.{Result, ok, err, ◌>>=◌}
use kedastral.Float64.{Float64, int_lit}
use kedastral.Features.{FeatureFrame}
use kedastral.Forecaster.Tick.{Forecast}
use kedastral.Models.Series.{
  replicate, tabulate, last_n, at, difference, compute_mean, fit_ar, fit_ma, residual_std_dev,
  autocorr, levinson_durbin, coeffs_or, damp, ar_part,
}
use kedastral.Models.Outlook.{
  ModelError, canceled, too_few_points, not_trained, panics, num_steps, values_from, last_or_zero,
  lagged_sum, damping_factor, predict_loop, quantiles_of,
}
use kedastral.Models.Arima.{order_or_one, max_of}

pub record SarimaModel {ℓ} (F : Type ℓ) : Type ℓ where
  pub metric : String
  pub step_sec : ℤ
  pub horizon_sec : ℤ
  pub p : ℕ
  pub d : ℕ
  pub q : ℕ
  pub sp : ℕ
  pub sd : ℕ
  pub sq : ℕ
  -- a period below 0 counts as 0: without seasonal orders, where it may be, it is only compared with 0
  pub s : ℕ
  pub trained : Bool
  pub ar_coeffs : List F
  pub ma_coeffs : List F
  pub seasonal_ar_coeffs : List F
  pub seasonal_ma_coeffs : List F
  pub mean : F
  pub last_values : List F
  pub last_errors : List F
  pub residual_std_dev : F

-- What an `int` keeps of a number, with 0 for a negative one.
unfoldable pub kept_int : ℕ → ℕ
unfolding wrap64
kept_int n = pos_part (wrap64 (pos n))

module _ {ℓ} {F : Type ℓ} ⦃fl : Float64 F⦄ where
  -- `none` is a panic.
  unfoldable pub new_sarima : String → ℤ → ℤ → ℤ → ℤ → ℤ → ℤ → ℤ → ℤ → ℤ → Option (SarimaModel F)
  new_sarima metric step_sec horizon_sec p d q sp sd sq s =
      if str_eq metric ""
        || leb_ℤ step_sec (pos 0)
        || ltb_ℤ horizon_sec step_sec
        || (ltb_ℤ d (pos 0) || ltb_ℤ (pos 2) d)
        || (ltb_ℤ sd (pos 0) || ltb_ℤ (pos 1) sd)
        || (ltb_ℤ p (pos 0) || ltb_ℤ q (pos 0))
        || (ltb_ℤ sp (pos 0) || ltb_ℤ sq (pos 0))
        || (ltb_ℤ (pos 0) sp || ltb_ℤ (pos 0) sd || ltb_ℤ (pos 0) sq) && leb_ℤ s (pos 0)
      then none
      else some record {
        metric = metric;
        step_sec = step_sec;
        horizon_sec = horizon_sec;
        p = order_or_one p;
        d = order_or_one d;
        q = order_or_one q;
        sp = pos_part sp;
        sd = pos_part sd;
        sq = pos_part sq;
        s = pos_part s;
        trained = false;
        ar_coeffs = [];
        ma_coeffs = [];
        seasonal_ar_coeffs = [];
        seasonal_ma_coeffs = [];
        mean = int_lit 0;
        last_values = [];
        last_errors = [];
        residual_std_dev = int_lit 0;
      }

  -- `minPoints`
  -- Sums and products keep 64 bits; one that is negative then counts as 0, which the minimum of 20 hides.
  unfoldable pub sarima_min_points : SarimaModel F → ℕ
  sarima_min_points m =
      let non_seasonal = max_of (kept_int (m.p + m.d)) (kept_int (m.q + m.d)) in
      let seasonal =
        max_of (kept_int (m.s * m.sp + m.s * m.sd)) (kept_int (m.s * m.sq + m.s * m.sd)) in
      let longer =
        if ltb 0 m.sd || ltb 0 m.sp || ltb 0 m.sq
        then max_of seasonal (kept_int (2 * m.s))
        else seasonal in
      max_of (max_of non_seasonal (if ltb 0 m.s then longer else 0)) 20

  -- One round at lag `s`.
  unfoldable pub seasonal_steps : ℕ → List F → List F
  unfolding tabulate
  seasonal_steps s series =
      tabulate (length series - s) 0 (λ i. fl.sub (at series (i + s)) (at series i))

  unfoldable pub seasonal_difference : List F → ℕ → ℕ → List F
  unfolding seasonal_steps
  seasonal_difference series zero s = series
  seasonal_difference series (suc d) s =
      let rest = seasonal_difference (seasonal_steps s series) d s in
      if s == 0 || leb (length series) s then series else rest

  unfoldable pub fit_seasonal_ar : List F → ℕ → ℕ → List F
  unfolding autocorr levinson_durbin coeffs_or
  fit_seasonal_ar centered sp s =
      if sp == 0 || s == 0
      then []
      else coeffs_or sp (fl.decimal 3 1)
          (levinson_durbin (tabulate (sp + 1) 0 (λ k. autocorr centered (k * s))) sp)

  unfoldable pub fit_seasonal_ma : List F → ℕ → ℕ → List F
  unfolding autocorr damp tabulate
  fit_seasonal_ma residuals sq s =
      if sq == 0 || s == 0 || length residuals == 0
      then []
      else tabulate sq 0 (λ i.
        if ltb ((i + 1) * s) (length residuals)
        then damp (autocorr residuals ((i + 1) * s))
        else int_lit 0)

  -- The sum over the seasonal lags from `i` on, where `t` reaches back far enough.
  unfoldable pub seasonal_part : ℕ → ℕ → List F → List F → ℕ → ℕ → F → F
  seasonal_part zero i coeffs centered t s acc = acc
  seasonal_part (suc rounds) i coeffs centered t s acc =
      seasonal_part rounds (i + 1) coeffs centered t s (
        if leb ((i + 1) * s) t
        then fl.add acc (fl.mul (at coeffs i) (at centered (t - (i + 1) * s)))
        else acc)

  unfoldable pub compute_seasonal_residuals : List F → List F → List F → ℕ → ℕ → ℕ → List F
  unfolding tabulate ar_part seasonal_part
  compute_seasonal_residuals centered coeffs seasonal p sp s =
      let start = max_of p (sp * s) in
      let rounds = if leb (length seasonal) sp then length seasonal else sp in
      tabulate (length centered - start) start (λ t.
        fl.sub (fl.sub (at centered t) (ar_part centered coeffs p t))
          (seasonal_part rounds 0 seasonal centered t s (int_lit 0)))

  unfoldable pub sarima_centered : SarimaModel F → List F → List F
  unfolding difference seasonal_difference compute_mean
  sarima_centered m values =
      let stationary = seasonal_difference (difference m.d values) m.sd m.s in
      map (λ v. fl.sub v (compute_mean stationary)) stationary

  -- `if m.P > 0 && m.s > 0`, which fitSeasonalAR tests again
  unfoldable pub sarima_residuals : SarimaModel F → List F → List F
  unfolding sarima_centered fit_ar fit_seasonal_ar compute_seasonal_residuals
  sarima_residuals m values =
      let centered = sarima_centered m values in
      compute_seasonal_residuals centered (fit_ar centered m.p) (fit_seasonal_ar centered m.sp m.s)
        m.p m.sp m.s

  -- What is kept when there is not enough is what the training before has left.
  unfoldable pub keep_last : ℕ → List F → List F → List F
  unfolding last_n
  keep_last needed xs old = if ltb 0 needed && leb needed (length xs) then last_n needed xs else old

  unfoldable pub sarima_fit : SarimaModel F → List F → SarimaModel F
  unfolding sarima_residuals fit_ma fit_seasonal_ma keep_last residual_std_dev
  sarima_fit m values =
      let centered = sarima_centered m values in
      let residuals = sarima_residuals m values in
      record m {
        trained = true;
        ar_coeffs = fit_ar centered m.p;
        ma_coeffs = fit_ma residuals m.q;
        seasonal_ar_coeffs = fit_seasonal_ar centered m.sp m.s;
        seasonal_ma_coeffs = fit_seasonal_ma residuals m.sq m.s;
        mean = compute_mean (seasonal_difference (difference m.d values) m.sd m.s);
        last_values = keep_last (max_of m.p (m.s * m.sp)) values m.last_values;
        last_errors = keep_last (max_of m.q (m.s * m.sq)) residuals m.last_errors;
        residual_std_dev = residual_std_dev residuals;
      }

  unfoldable pub sarima_train :
      Bool → FeatureFrame F → SarimaModel F → Result ModelError (SarimaModel F)
  unfolding values_from sarima_fit sarima_min_points
  sarima_train live history m =
      if live
      then (values_from 0 history >>= λ values.
          (if ltb (length values) (sarima_min_points m)
            then err too_few_points
            else ok (sarima_fit m values)))
      else err canceled

  -- A seasonal sum of the first prediction, over the lags from `i` on. `none` is an index out of the
  -- range of `coeffs`.
  unfoldable pub seasonal_sum : ℕ → ℕ → ℕ → List F → List F → F → Option F
  seasonal_sum zero i s coeffs lasts acc = some acc
  seasonal_sum (suc rounds) i s coeffs lasts acc =
      let n = length lasts in
      let reaches = ltb ((i + 1) * s) n in
      let term = fl.mul (at coeffs i) (at lasts (n - 1 - (i + 1) * s)) in
      let rest =
        seasonal_sum rounds (i + 1) s coeffs lasts (if reaches then fl.add acc term else acc) in
      if reaches && leb (length coeffs) i then none else rest

  -- The four sums of the first prediction, in the order of the source.
  unfoldable pub sarima_first : SarimaModel F → Option F
  unfolding lagged_sum seasonal_sum last_or_zero
  sarima_first m = elim (lagged_sum m.p m.ar_coeffs m.last_values) [
    | none ↦ none
    | some ar ↦ elim (seasonal_sum m.sp 0 m.s m.seasonal_ar_coeffs m.last_values (int_lit 0)) [
      | none ↦ none
      | some seasonal_ar ↦ elim (lagged_sum m.q m.ma_coeffs m.last_errors) [
        | none ↦ none
        | some ma ↦ elim (seasonal_sum m.sq 0 m.s m.seasonal_ma_coeffs m.last_errors (int_lit 0)) [
          | none ↦ none
          | some seasonal_ma ↦ some (
              fl.add (last_or_zero m.last_values)
                (fl.mul (fl.add (fl.add (fl.add ar seasonal_ar) ma) seasonal_ma) (fl.decimal 1 1)))
        ]
      ]
    ]
  ]

  -- The prediction at `t`, after the predictions before it.
  unfoldable pub sarima_next : ℕ → ℕ → F → F → List F → F
  unfolding damping_factor last_or_zero
  sarima_next sp s base first [] = first
  sarima_next sp s base first (x ∷ preds) =
      let t = length (x ∷ preds) in
      let factor = damping_factor t in
      let mixed =
        fl.add (fl.mul base (fl.decimal 9 1))
          (fl.mul (last_or_zero (x ∷ preds)) (fl.decimal 1 1)) in
      let seasonal = fl.sub (at (x ∷ preds) (t - s)) base in
      let pred =
        if ltb 0 s && leb s t && ltb 0 sp
        then fl.add mixed (fl.mul (fl.mul seasonal (fl.decimal 3 1)) factor)
        else mixed in
      fl.add (fl.mul pred factor) (fl.mul base (fl.sub (int_lit 1) factor))

  unfoldable pub sarima_values : SarimaModel F → F → List F
  unfolding predict_loop sarima_next num_steps last_or_zero
  sarima_values m first =
      let base = last_or_zero m.last_values in
      predict_loop (num_steps m.step_sec m.horizon_sec) (sarima_next m.sp m.s base first) base []

  unfoldable pub sarima_forecast : SarimaModel F → F → Forecast F
  unfolding sarima_values quantiles_of
  sarima_forecast m first =
      let values = sarima_values m first in
      record {
        metric = m.metric;
        values = values;
        step_sec = m.step_sec;
        horizon = m.horizon_sec;
        quantiles = some (quantiles_of m.residual_std_dev values);
      }

  unfoldable pub sarima_predict : Bool → SarimaModel F → Result ModelError (Forecast F)
  unfolding sarima_first sarima_forecast
  sarima_predict live m =
      if live
      then if m.trained
        then elim (sarima_first m) [ none ↦ err panics | some first ↦ ok (sarima_forecast m first) ]
        else err not_trained
      else err canceled
