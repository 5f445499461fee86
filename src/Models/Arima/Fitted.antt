-- ===== src/Models/Arima/Fitted.antt =====
-- What a trained ARIMA model keeps, and what it predicts.
use kedastral.Base.{
  ℕ, ◌+◌, ◌-◌, ◌≤◌, ◌==◌, ◌≡◌, ◌≢◌, refl, sym, subst, ◌∙◌, inl, inr, Bool-cases, Option-cases,
  String, true, false, none, some, List, [], ◌∷◌, length, length-map, ltb, leb, if◌then◌else◌,
  arith,
}
use kedastral.Base.Int.{ℤ, pos, ◌≤ℤ◌, ◌<ℤ◌}
use kedastral.Base.Dict.{lookup}
use kedastral.Base.Result.{ok, err, ◌>>=◌, >>=-eq-ok}
use kedastral.Float64.{Float64, int_lit}
use kedastral.Features.{FeatureFrame}
use kedastral.Forecaster.Tick.{Forecast}
use kedastral.Models.Series.{difference, fit_ar, compute_residuals, fit_ma}
use kedastral.Models.Series.Shape.{
  length-replicate, length-last_n, length-difference, length-fit_ar, length-compute_residuals,
  length-fit_ma,
}
use kedastral.Models.Outlook.{too_few_points, panics, num_steps, values_from, last_or_zero}
use kedastral.Models.Outlook.Bounds.{
  AreAligned, length-predict_loop, quantiles_of-AreAligned, lagged_sum-eq-none, lagged_sum-some,
}
use kedastral.Models.Arima.{
  ArimaModel, new_arima, arima_centered, arima_residuals, arima_last_errors, arima_fit, arima_train,
  arima_first, arima_values, arima_forecast, arima_predict, arima_min_points, arima_next,
}

module _ {ℓ} {F : Type ℓ} ⦃fl : Float64 F⦄ where
  -- What `NewARIMAModel` ensures of the orders and the times.
  abbrev pub IsArima : ArimaModel F → Type 0
  IsArima m =
      (1 ≤ m.p)
      × (1 ≤ m.q)
      × (1 ≤ m.d)
      × (m.d ≤ 2)
      × (pos 0 <ℤ m.step_sec)
      × (m.step_sec ≤ℤ m.horizon_sec)

  pub new_arima-IsArima :
      (metric : String) (step_sec horizon_sec p d q : ℤ) (m : ArimaModel F)
      → new_arima metric step_sec horizon_sec p d q ≡ some m
      → IsArima m
  unfolding new_arima
  new_arima-IsArima metric step_sec horizon_sec p d q m h = ground (arith, h)

  length-arima_centered :
      (m : ArimaModel F) (values : List F) → length (arima_centered m values) ≡ length values - m.d
  unfolding arima_centered
  length-arima_centered m values =
      length-map _ (difference m.d values) ∙ length-difference m.d values

  arima_residuals_lem :
      (m : ArimaModel F) (values : List F)
      → arima_residuals m values
        ≡ compute_residuals (arima_centered m values) (fit_ar (arima_centered m values) m.p) m.p
  unfolding arima_residuals
  arima_residuals_lem m values = refl

  length-arima_residuals :
      (m : ArimaModel F) (values : List F)
      → length (arima_residuals m values) ≡ length values - m.d - m.p
  length-arima_residuals m values =
      rw (arima_residuals_lem m values, length-compute_residuals, length-arima_centered m values)
        refl

  pub length-values_from :
      (i : ℕ) (history : FeatureFrame F) (values : List F)
      → values_from i history ≡ ok values
      → length values ≡ length history
  unfolding values_from
  length-values_from i [] values h = ground (arith, h)
  length-values_from i (row ∷ rows) values h = elim (Option-cases (lookup "value" row)) [
    | inl e ↦ ground (arith, rw (values_from, e) at h)
    | inr (v, e) ↦
        let (vs, evs, eok) =
          >>=-eq-ok (values_from (i + 1) rows) _ values (rw (values_from, e) at h) in
        ground (arith, length-values_from (i + 1) rows vs evs, eok)
  ]

  -- What a model keeps of the values that it was fitted to.
  record IsFitted (m : ArimaModel F) (n : ℕ) (m' : ArimaModel F) : Type ℓ where
    trained : m'.trained ≡ true
    same_p : m'.p ≡ m.p
    same_q : m'.q ≡ m.q
    ar : length m'.ar_coeffs ≡ m.p
    ma : length m'.ma_coeffs ≡ (if n == m.p + m.d then 0 else m.q)
    values : length m'.last_values ≡ m.p
    errors : length m'.last_errors ≡ m.q

  length-ma_fitted :
      (m : ArimaModel F) (values : List F)
      → m.p + m.d ≤ length values
      → length (fit_ma (arima_residuals m values) m.q)
        ≡ (if length values == m.p + m.d then 0 else m.q)
  length-ma_fitted m values h =
      length-fit_ma (arima_residuals m values) m.q
      ∙ rw (length-arima_residuals m values) (ground (arith, h))

  length-arima_last_errors :
      (q : ℕ) (residuals : List F) → length (arima_last_errors q residuals) ≡ q
  unfolding arima_last_errors
  length-arima_last_errors q residuals = elim (Bool-cases (leb q (length residuals))) [
    | inl e ↦ rw e (length-last_n q residuals (ground (arith, e)))
    | inr e ↦ rw e (length-replicate q (int_lit 0))
  ]

  arima_fit-IsFitted :
      (m : ArimaModel F) (values : List F)
      → m.p + m.d ≤ length values
      → IsFitted m (length values) (arima_fit m values)
  unfolding arima_fit
  arima_fit-IsFitted m values h = record {
    trained = refl;
    same_p = refl;
    same_q = refl;
    ar = length-fit_ar (arima_centered m values) m.p;
    ma = length-ma_fitted m values h;
    values = length-last_n m.p values (omega (arith, h));
    errors = length-arima_last_errors m.q (arima_residuals m values);
  }

  arima_predict_lem :
      (m : ArimaModel F)
      → m.trained ≡ true
      → arima_predict true m
        ≡ elim (arima_first m) [ none ↦ err panics | some first ↦ ok (arima_forecast m first) ]
  unfolding arima_predict
  arima_predict_lem m h = rw h refl

  abbrev pub HasForecast : ArimaModel F → Type ℓ
  HasForecast m =
      (fc : Forecast F) × (arima_predict true m ≡ ok fc)
      × (length fc.values ≡ num_steps m.step_sec m.horizon_sec)
      × ((qs : List (F × List F)) → fc.quantiles ≡ some qs → AreAligned fc.values qs)

  length-arima_values :
      (m : ArimaModel F) (first : F)
      → length (arima_forecast m first).values ≡ num_steps m.step_sec m.horizon_sec
  unfolding arima_forecast
  length-arima_values m first =
      rw
        (length-predict_loop (num_steps m.step_sec m.horizon_sec)
          (arima_next (last_or_zero m.last_values) first) (last_or_zero m.last_values) [])
        (omega arith)

  arima_forecast-AreAligned :
      (m : ArimaModel F) (first : F) (qs : List (F × List F))
      → (arima_forecast m first).quantiles ≡ some qs
      → AreAligned (arima_forecast m first).values qs
  unfolding arima_forecast
  arima_forecast-AreAligned m first qs e =
      subst (AreAligned (arima_values m first)) (ground (arith, e))
        (quantiles_of-AreAligned m.residual_std_dev (arima_values m first))

  arima_forecast-HasForecast :
      (m : ArimaModel F) (first : F) → m.trained ≡ true → arima_first m ≡ some first → HasForecast m
  arima_forecast-HasForecast m first trained e = (
    arima_forecast m first,
    rw (arima_predict_lem m trained, e) refl,
    length-arima_values m first,
    arima_forecast-AreAligned m first,
  )

  arima_first-eq-none :
      (m : ArimaModel F)
      → length m.ma_coeffs ≡ 0
      → 1 ≤ length m.last_errors
      → 1 ≤ m.q
      → arima_first m ≡ none
  unfolding arima_first
  arima_first-eq-none m h hq hp =
      ground (arith, lagged_sum-eq-none m.q m.ma_coeffs m.last_errors (ground (arith, h, hq, hp)))

  arima_first-some :
      (m : ArimaModel F)
      → length m.ar_coeffs ≡ m.p
      → length m.ma_coeffs ≡ m.q
      → (x : F) × (arima_first m ≡ some x)
  unfolding arima_first
  arima_first-some m hp hq =
      let (x, ex) = lagged_sum-some m.p m.ar_coeffs m.last_values (ground (arith, hp)) in
      let (y, ey) = lagged_sum-some m.q m.ma_coeffs m.last_errors (ground (arith, hq)) in
      rw (arima_first, ex, ey) (_, refl)

  arima_predict-fit :
      (m : ArimaModel F) (values : List F)
      → IsArima m
      → m.p + m.d ≤ length values
      → (length values ≡ m.p + m.d → arima_predict true (arima_fit m values) ≡ err panics)
        × (length values ≢ m.p + m.d → HasForecast (arima_fit m values))
  arima_predict-fit m values h enough =
      let fit = arima_fit-IsFitted m values enough in
      (
        λ c.
            rw
              (
                arima_predict_lem (arima_fit m values) fit.trained,
                arima_first-eq-none (arima_fit m values) (ground (arith, fit.ma, c))
                    (ground (arith, fit.errors, h)) (ground (arith, fit.same_q, h)),
              )
              refl,
        λ c.
            let (first, ef) =
              arima_first-some (arima_fit m values) (fit.ar ∙ sym fit.same_p)
                (ground (arith, fit.ma, fit.same_q, c)) in
            arima_forecast-HasForecast (arima_fit m values) first fit.trained ef,
      )

  arima_train_lem :
      (history : FeatureFrame F) (m : ArimaModel F)
      → arima_train true history m ≡ (
          values_from 0 history >>= λ values.
          (if ltb (length values) (arima_min_points m)
            then err too_few_points
            else ok (arima_fit m values)))
  unfolding arima_train
  arima_train_lem history m = refl

  pub arima_train-ok :
      (history : FeatureFrame F) (m : ArimaModel F) (values : List F)
      → values_from 0 history ≡ ok values
      → ltb (length values) (arima_min_points m) ≡ false
      → arima_train true history m ≡ ok (arima_fit m values)
  arima_train-ok history m values e c = rw (arima_train_lem history m, e, c) refl

  arima_train-eq-ok :
      (history : FeatureFrame F) (m m' : ArimaModel F)
      → arima_train true history m ≡ ok m'
      → (values : List F) × (length values ≡ length history)
        × (m.p + m.d ≤ length values)
        × (arima_fit m values ≡ m')
  arima_train-eq-ok history m m' e =
      let (values, ev, e2) =
        >>=-eq-ok (values_from 0 history) _ m' (rw (arima_train_lem history m) at e) in
      elim (Bool-cases (ltb (length values) (arima_min_points m))) [
        | inl c ↦ ground (arith, rw c at e2)
        | inr c ↦ (
          values,
          length-values_from 0 history values ev,
          ground (arith, c),
          ground (arith, rw c at e2),
        )
      ]

  -- After a successful training on exactly p+d rows the prediction of ARIMA panics. After one
  -- on more rows it answers a forecast with one value for each step, and as many in each quantile.
  pub arima_predict-train :
      (history : FeatureFrame F) (m m' : ArimaModel F)
      → IsArima m
      → arima_train true history m ≡ ok m'
      → (length history ≡ m.p + m.d → arima_predict true m' ≡ err panics)
        × (length history ≢ m.p + m.d → HasForecast m')
  arima_predict-train history m m' h e =
      let (values, same, enough, fitted) = arima_train-eq-ok history m m' e in
      let (bad, good) = arima_predict-fit m values h enough in
      (
        λ c. subst (λ x. arima_predict true x ≡ err panics) fitted (bad (same ∙ c)),
        λ c. subst HasForecast fitted (good (λ c'. c (ground (arith, same, c')))),
      )
