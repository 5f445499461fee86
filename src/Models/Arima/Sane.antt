-- ===== src/Models/Arima/Sane.antt =====
-- The limits on what ARIMA predicts.
use kedastral.Base.{◌≡◌, subst, inl, inr, Option-cases, Bool, false, some, List, [], All, arith}
use kedastral.Base.Result.{ok}
use kedastral.Float64.{Float64, IsFloat64, int_lit}
use kedastral.Forecaster.Tick.{Forecast}
use kedastral.Models.Outlook.{num_steps, last_or_zero, cap}
use kedastral.Models.Outlook.Bounds.{
  IsSane, AreNotNegative, predict_loop-AreSane, quantiles_of-AreNotNegative,
}
use kedastral.Models.Arima.{
  ArimaModel, arima_first, arima_values, arima_forecast, arima_predict, arima_next,
}

module _ {ℓ} {F : Type ℓ} ⦃fl : Float64 F⦄ where
  -- What the interface of a model asks of a forecast, with the limit of 1e9.
  abbrev pub IsSaneForecast : Forecast F → Type ℓ
  IsSaneForecast fc =
      All IsSane fc.values × ((qs : List (F × List F)) → fc.quantiles ≡ some qs → AreNotNegative qs)

  arima_forecast-IsSane :
      IsFloat64 F
      → (m : ArimaModel F) (first : F)
      → fl.lt (cap (last_or_zero m.last_values)) (int_lit 0) ≡ false
      → IsSaneForecast (arima_forecast m first)
  unfolding arima_forecast
  arima_forecast-IsSane laws m first h = (
    predict_loop-AreSane laws (num_steps m.step_sec m.horizon_sec)
        (arima_next (last_or_zero m.last_values) first) (last_or_zero m.last_values) [] h tt,
    λ qs e.
        subst AreNotNegative (ground (arith, e))
          (quantiles_of-AreNotNegative laws m.residual_std_dev (arima_values m first)),
  )

  arima_predict-eq-ok :
      (live : Bool) (m : ArimaModel F) (fc : Forecast F)
      → arima_predict live m ≡ ok fc
      → (first : F) × (arima_forecast m first ≡ fc)
  unfolding arima_predict
  arima_predict-eq-ok live m fc h = elim (Option-cases (arima_first m)) [
    | inl e ↦ ground (arith, h, e)
    | inr (first, e) ↦ (first, ground (arith, h, e))
  ]

  -- When twice the last value plus 100 is not below 0, no value that ARIMA predicts is below 0 or
  -- above 1e9, and no value of a quantile is below 0. NaN counts as neither.
  pub arima_predict-IsSane :
      IsFloat64 F
      → (live : Bool) (m : ArimaModel F) (fc : Forecast F)
      → fl.lt (cap (last_or_zero m.last_values)) (int_lit 0) ≡ false
      → arima_predict live m ≡ ok fc
      → IsSaneForecast fc
  arima_predict-IsSane laws live m fc h e =
      let (first, same) = arima_predict-eq-ok live m fc e in
      subst IsSaneForecast same (arima_forecast-IsSane laws m first h)
