-- ===== src/Models/Sarima/Fitted.antt =====
-- What a trained SARIMA model predicts, and when its prediction panics.
use kedastral.Base.{
  ℕ, ◌+◌, ◌-◌, ◌*◌, ◌^◌, ◌<◌, ◌≤◌, ◌≡◌, refl, ap, ◌||◌, ltb, if◌then◌else◌, subst, ◌∙◌, String,
  true, none, some, List, [], length, length-map, arith,
}
use kedastral.Base.Int.{ℤ, pos, pos_part, wrap64_id}
use kedastral.Base.Result.{ok, err}
use kedastral.Float64.{Float64, int_lit}
use kedastral.Forecaster.Tick.{Forecast}
use kedastral.Models.Series.{difference, fit_ar}
use kedastral.Models.Series.Shape.{length-tabulate, length-difference}
use kedastral.Models.Outlook.{panics, num_steps, last_or_zero, lagged_sum}
use kedastral.Models.Outlook.Bounds.{AreAligned, length-predict_loop, quantiles_of-AreAligned}
use kedastral.Models.Arima.{max_of}
use kedastral.Models.Sarima.{
  SarimaModel, kept_int, new_sarima, sarima_min_points, seasonal_difference, fit_seasonal_ar,
  compute_seasonal_residuals, sarima_centered, sarima_residuals, seasonal_sum, sarima_first,
  sarima_next, sarima_values, sarima_forecast, sarima_predict,
}
use kedastral.Models.Sarima.Seasons.{length-seasonal_difference}

kept_int_id : (n : ℕ) → n < 2 ^ 63 → kept_int n ≡ n
unfolding kept_int
kept_int_id n h = ap pos_part (wrap64_id (pos n) (h, omega arith))

module _ {ℓ} {F : Type ℓ} ⦃fl : Float64 F⦄ where
  -- The sums and products of the orders fit an `int`.
  abbrev pub FitsInt : SarimaModel F → Type 0
  FitsInt m =
      (m.p + m.d < 2 ^ 63)
      × (m.q + m.d < 2 ^ 63)
      × (m.s * m.sp + m.s * m.sd < 2 ^ 63)
      × (m.s * m.sq + m.s * m.sd < 2 ^ 63)
      × (2 * m.s < 2 ^ 63)

  -- What `NewSARIMAModel` ensures of the orders, which are not so large that `Train` overflows.
  abbrev pub IsSarima : SarimaModel F → Type 0
  IsSarima m =
      (1 ≤ m.p)
      × (1 ≤ m.q)
      × (m.d ≤ 2)
      × (m.sd ≤ 1)
      × (1 ≤ m.sp → 1 ≤ m.s)
      × (1 ≤ m.sd → 1 ≤ m.s)
      × (1 ≤ m.sq → 1 ≤ m.s)
      × FitsInt m

  pub new_sarima-IsSarima :
      (metric : String) (step_sec horizon_sec p d q sp sd sq s : ℤ) (m : SarimaModel F)
      → new_sarima metric step_sec horizon_sec p d q sp sd sq s ≡ some m
      → FitsInt m
      → IsSarima m
  unfolding new_sarima
  new_sarima-IsSarima metric step_sec horizon_sec p d q sp sd sq s m h fits =
      ground (arith, h, fits)

  pub fits_int : (m : SarimaModel F) → IsSarima m → FitsInt m
  fits_int m (a, b, c, d, e, f, g, fits) = fits

  -- How many residuals `n` values leave.
  abbrev pub residual_count : SarimaModel F → ℕ → ℕ
  residual_count m n = n - m.d - m.s * m.sd - max_of m.p (m.sp * m.s)

  sarima_min_points_lem :
      (m : SarimaModel F)
      → FitsInt m
      → sarima_min_points m ≡ (
          let seasonal = max_of (m.s * m.sp + m.s * m.sd) (m.s * m.sq + m.s * m.sd) in
          let longer =
            if ltb 0 m.sd || ltb 0 m.sp || ltb 0 m.sq
            then max_of seasonal (2 * m.s)
            else seasonal in
          max_of (max_of (max_of (m.p + m.d) (m.q + m.d)) (if ltb 0 m.s then longer else 0)) 20)
  unfolding sarima_min_points
  sarima_min_points_lem m (a, b, c, d, e) =
      rw
        (
          kept_int_id (m.p + m.d) a,
          kept_int_id (m.q + m.d) b,
          kept_int_id (m.s * m.sp + m.s * m.sd) c,
          kept_int_id (m.s * m.sq + m.s * m.sd) d,
          kept_int_id (2 * m.s) e,
        )
        refl

  pub enough_for_orders :
      (m : SarimaModel F) (n : ℕ)
      → FitsInt m
      → sarima_min_points m ≤ n
      → (20 ≤ n) × (m.p + m.d ≤ n) × (1 ≤ m.s → m.s * m.sp + m.s * m.sd ≤ n)
  enough_for_orders m n fits h =
      let enough = rw (sarima_min_points_lem m fits) at h in ground (arith, enough)

  enough_for_season :
      (m : SarimaModel F) (n : ℕ)
      → FitsInt m
      → sarima_min_points m ≤ n
      → 1 ≤ m.sd
      → 1 ≤ m.s
      → 2 * m.s ≤ n
  enough_for_season m n fits h k l =
      let enough = rw (sarima_min_points_lem m fits) at h in ground (arith, enough, k, l)

  length-sarima_centered :
      (m : SarimaModel F) (values : List F)
      → IsSarima m
      → sarima_min_points m ≤ length values
      → length (sarima_centered m values) ≡ length values - m.d - m.s * m.sd
  unfolding sarima_centered
  length-sarima_centered m values h enough =
      let more = enough_for_orders m (length values) (fits_int m h) enough in
      let season = enough_for_season m (length values) (fits_int m h) enough in
      length-map _ (seasonal_difference (difference m.d values) m.sd m.s)
      ∙ rw
          (length-seasonal_difference m.sd m.s (difference m.d values) (ground (arith, h))
            (λ k. rw (length-difference m.d values) (ground (arith, h, more, season, k))))
          (rw (length-difference m.d values) refl)

  length-compute_seasonal_residuals :
      (centered coeffs seasonal : List F) (p sp s : ℕ)
      → length (compute_seasonal_residuals centered coeffs seasonal p sp s)
        ≡ length centered - max_of p (sp * s)
  unfolding compute_seasonal_residuals
  length-compute_seasonal_residuals centered coeffs seasonal p sp s = length-tabulate _ _ _

  sarima_residuals_lem :
      (m : SarimaModel F) (values : List F)
      → sarima_residuals m values
        ≡ compute_seasonal_residuals
            (sarima_centered m values)
            (fit_ar (sarima_centered m values) m.p)
            (fit_seasonal_ar (sarima_centered m values) m.sp m.s)
            m.p
            m.sp
            m.s
  unfolding sarima_residuals
  sarima_residuals_lem m values = refl

  pub length-sarima_residuals :
      (m : SarimaModel F) (values : List F)
      → IsSarima m
      → sarima_min_points m ≤ length values
      → length (sarima_residuals m values) ≡ residual_count m (length values)
  length-sarima_residuals m values h enough =
      rw
        (
          sarima_residuals_lem m values,
          length-compute_seasonal_residuals,
          length-sarima_centered m values h enough,
        )
        refl

  abbrev pub HasSarimaForecast : SarimaModel F → Type ℓ
  HasSarimaForecast m =
      (fc : Forecast F) × (sarima_predict true m ≡ ok fc)
      × (length fc.values ≡ num_steps m.step_sec m.horizon_sec)
      × ((qs : List (F × List F)) → fc.quantiles ≡ some qs → AreAligned fc.values qs)

  length-sarima_values :
      (m : SarimaModel F) (first : F)
      → length (sarima_forecast m first).values ≡ num_steps m.step_sec m.horizon_sec
  unfolding sarima_forecast
  length-sarima_values m first =
      rw
        (length-predict_loop (num_steps m.step_sec m.horizon_sec)
          (sarima_next m.sp m.s (last_or_zero m.last_values) first) (last_or_zero m.last_values) [])
        (omega arith)

  sarima_forecast-AreAligned :
      (m : SarimaModel F) (first : F) (qs : List (F × List F))
      → (sarima_forecast m first).quantiles ≡ some qs
      → AreAligned (sarima_forecast m first).values qs
  unfolding sarima_forecast
  sarima_forecast-AreAligned m first qs e =
      subst (AreAligned (sarima_values m first)) (ground (arith, e))
        (quantiles_of-AreAligned m.residual_std_dev (sarima_values m first))

  pub sarima_predict_lem :
      (m : SarimaModel F)
      → m.trained ≡ true
      → sarima_predict true m
        ≡ elim (sarima_first m) [ none ↦ err panics | some first ↦ ok (sarima_forecast m first) ]
  unfolding sarima_predict
  sarima_predict_lem m h = rw h refl

  pub sarima_forecast-HasForecast :
      (m : SarimaModel F) (first : F)
      → m.trained ≡ true
      → sarima_first m ≡ some first
      → HasSarimaForecast m
  sarima_forecast-HasForecast m first trained e = (
    sarima_forecast m first,
    rw (sarima_predict_lem m trained, e) refl,
    length-sarima_values m first,
    sarima_forecast-AreAligned m first,
  )

  pub sarima_first-eq-none :
      (m : SarimaModel F) (x y : F)
      → lagged_sum m.p m.ar_coeffs m.last_values ≡ some x
      → seasonal_sum m.sp 0 m.s m.seasonal_ar_coeffs m.last_values (int_lit 0) ≡ some y
      → lagged_sum m.q m.ma_coeffs m.last_errors ≡ none
      → sarima_first m ≡ none
  unfolding sarima_first
  sarima_first-eq-none m x y ex ey e = rw (sarima_first, ex, ey, e) refl

  pub sarima_first-some :
      (m : SarimaModel F) (x y z w : F)
      → lagged_sum m.p m.ar_coeffs m.last_values ≡ some x
      → seasonal_sum m.sp 0 m.s m.seasonal_ar_coeffs m.last_values (int_lit 0) ≡ some y
      → lagged_sum m.q m.ma_coeffs m.last_errors ≡ some z
      → seasonal_sum m.sq 0 m.s m.seasonal_ma_coeffs m.last_errors (int_lit 0) ≡ some w
      → (first : F) × (sarima_first m ≡ some first)
  unfolding sarima_first
  sarima_first-some m x y z w ex ey ez ew = rw (sarima_first, ex, ey, ez, ew) (_, refl)
