-- ===== src/Models/Tests.antt =====
-- The models on short series, and the witnesses of what is proved of them.
use kedastral.Base.{ℕ, ◌+◌, ◌*◌, ◌≡◌, refl, true, false, ltb, some, List, [], ◌∷◌, length, arith}
use kedastral.Base.Int.{ℤ, pos, negsuc, quot, ◌+ℤ◌, ◌*ℤ◌}
use kedastral.Base.Dict.{Dict, lookup}
use kedastral.Base.Result.{ok, err}
use kedastral.Float64.{int_lit}
use kedastral.Float64.Scaled.{scaled, scaled-IsFloat64}
use kedastral.Features.{FeatureFrame}
use kedastral.Forecaster.Tick.{Forecast}
use kedastral.Models.Outlook.{panics, num_steps, cap, last_or_zero, values_from}
use kedastral.Models.Arima.{ArimaModel, new_arima, arima_fit, arima_train, arima_predict}
use kedastral.Models.Arima.Fitted.{IsArima, new_arima-IsArima, arima_predict-train, arima_train-ok}
use kedastral.Models.Arima.Sane.{IsSaneForecast, arima_predict-IsSane}
use kedastral.Models.Sarima.{
  SarimaModel, new_sarima, sarima_fit, sarima_train, sarima_predict, sarima_min_points, kept_int,
}
use kedastral.Models.Sarima.Fitted.{IsSarima, new_sarima-IsSarima}
use kedastral.Models.Sarima.Outcome.{
  with_seasonal_ar, sarima_predict-train, sarima_train-ok, sarima_predict_seasonless,
}
use kedastral.Models.Baseline.{BaselineModel, new_baseline, baseline_train}
use kedastral.Models.Baseline.Patterns.{IsLearned, baseline_train-IsLearned}
use kedastral.Models.Baseline.Predict.{present_values, baseline_predict}
use kedastral.Models.Baseline.Predict.Bounds.{IsForecast, baseline_predict-IsForecast}

-- a row of 1.5 more than `n`, at minute 7 of hour 3
abbrev row : ℕ → Dict ℤ
row n = ("value", pos (n * 1000 + 1500)) ∷ ("minute", pos 7000) ∷ ("hour", pos 3000) ∷ []

-- 10 rows
abbrev history : FeatureFrame ℤ
history = row 1 ∷ row 3 ∷ row 2 ∷ row 6 ∷ row 4 ∷ row 9 ∷ row 5 ∷ row 7 ∷ row 3 ∷ row 8 ∷ []

-- 20 rows
abbrev long_history : FeatureFrame ℤ
long_history =
    row 1
    ∷ row 3
    ∷ row 2
    ∷ row 6
    ∷ row 4
    ∷ row 9
    ∷ row 5
    ∷ row 7
    ∷ row 3
    ∷ row 8
    ∷ row 1
    ∷ row 3
    ∷ row 2
    ∷ row 6
    ∷ row 4
    ∷ row 9
    ∷ row 5
    ∷ row 7
    ∷ row 3
    ∷ row 8
    ∷ []

abbrev values_of : FeatureFrame ℤ → List ℤ
values_of [] = []
values_of (((k, v) ∷ rest) ∷ rows) = v ∷ values_of rows
values_of ([] ∷ rows) = values_of rows

-- ARIMA(9,1,1), for which 10 rows leave no residual
abbrev wide_arima : ArimaModel ℤ
wide_arima = record {
  metric = "rps";
  step_sec = pos 60;
  horizon_sec = pos 180;
  p = 9;
  d = 1;
  q = 1;
  trained = false;
  ar_coeffs = [];
  ma_coeffs = [];
  mean = pos 0;
  last_values = [];
  last_errors = [];
  residual_std_dev = pos 0;
}

wide_arima_new : new_arima "rps" (pos 60) (pos 180) (pos 9) (pos 0) (pos 0) ≡ some wide_arima
unfolding new_arima scaled ◌*ℤ◌
wide_arima_new = refl

values_from-history : values_from 0 history ≡ ok (values_of history)
unfolding values_from lookup
values_from-history = refl

wide_arima_trained :
    arima_train true history wide_arima ≡ ok (arima_fit wide_arima (values_of history))
wide_arima_trained = arima_train-ok history wide_arima (values_of history) values_from-history refl

wide_arima-IsArima : IsArima wide_arima
wide_arima-IsArima =
    new_arima-IsArima "rps" (pos 60) (pos 180) (pos 9) (pos 0) (pos 0) wide_arima wide_arima_new

arima_predict-train_example :
    arima_predict true (arima_fit wide_arima (values_of history)) ≡ err panics
arima_predict-train_example =
    (arima_predict-train history wide_arima (arima_fit wide_arima (values_of history))
        wide_arima-IsArima wide_arima_trained).0
      refl

-- ARIMA(1,1,1) as it may be after a training
abbrev arima : ArimaModel ℤ
arima = record wide_arima {
  p = 1;
  trained = true;
  ar_coeffs = pos 500 ∷ [];
  ma_coeffs = negsuc 199 ∷ [];
  last_values = pos 9500 ∷ [];
  last_errors = pos 2000 ∷ [];
  residual_std_dev = pos 0;
}

abbrev arima_predicted : Forecast ℤ
arima_predicted = record {
  metric = "rps";
  values = pos 9935 ∷ pos 9538 ∷ pos 9501 ∷ [];
  step_sec = pos 60;
  horizon = pos 180;
  quantiles = some [];
}

arima_predicts : arima_predict true arima ≡ ok arima_predicted
unfolding arima_predict scaled
arima_predicts = refl

not_capped : scaled.lt (cap (last_or_zero arima.last_values)) (int_lit 0) ≡ false
unfolding cap last_or_zero scaled ◌*ℤ◌ ◌+ℤ◌ quot
not_capped = refl

arima_predict-IsSane_example : IsSaneForecast arima_predicted
arima_predict-IsSane_example =
    arima_predict-IsSane scaled-IsFloat64 true arima arima_predicted not_capped arima_predicts

-- SARIMA(1,1,1)(1,1,0,10), for which 20 rows leave no residual
abbrev sarima : SarimaModel ℤ
sarima = record {
  metric = "rps";
  step_sec = pos 60;
  horizon_sec = pos 180;
  p = 1;
  d = 1;
  q = 1;
  sp = 1;
  sd = 1;
  sq = 0;
  s = 10;
  trained = false;
  ar_coeffs = [];
  ma_coeffs = [];
  seasonal_ar_coeffs = [];
  seasonal_ma_coeffs = [];
  mean = pos 0;
  last_values = [];
  last_errors = [];
  residual_std_dev = pos 0;
}

sarima_new :
    new_sarima "rps" (pos 60) (pos 180) (pos 1) (pos 0) (pos 0) (pos 1) (pos 1) (pos 0) (pos 10)
    ≡ some sarima
unfolding new_sarima scaled ◌*ℤ◌
sarima_new = refl

sarima-IsSarima : IsSarima sarima
sarima-IsSarima =
    new_sarima-IsSarima "rps" (pos 60) (pos 180) (pos 1) (pos 0) (pos 0) (pos 1) (pos 1) (pos 0)
      (pos 10) sarima sarima_new (omega arith, omega arith, omega arith, omega arith, omega arith)

-- after an earlier training on more rows
abbrev sarima_before : SarimaModel ℤ
sarima_before = record sarima { trained = true; last_errors = pos 1000 ∷ [] }

values_from-long_history : values_from 0 long_history ≡ ok (values_of long_history)
unfolding values_from lookup
values_from-long_history = refl

enough_for_sarima : ltb (length (values_of long_history)) (sarima_min_points sarima_before) ≡ false
unfolding sarima_min_points kept_int
enough_for_sarima = refl

sarima_trained :
    sarima_train true long_history sarima_before
    ≡ ok (sarima_fit sarima_before (values_of long_history))
sarima_trained =
    sarima_train-ok long_history sarima_before (values_of long_history) values_from-long_history
      enough_for_sarima

sarima_predict-train_example :
    sarima_predict true (sarima_fit sarima_before (values_of long_history)) ≡ err panics
sarima_predict-train_example =
    (sarima_predict-train long_history sarima_before
        (sarima_fit sarima_before (values_of long_history)) sarima-IsSarima sarima_trained).0
      refl (omega arith)

sarima_predict_seasonless_example :
    sarima_predict true
      (with_seasonal_ar (pos 77 ∷ []) (sarima_fit sarima_before (values_of long_history)))
    ≡ sarima_predict true (sarima_fit sarima_before (values_of long_history))
sarima_predict_seasonless_example =
    sarima_predict_seasonless true long_history sarima_before
      (sarima_fit sarima_before (values_of long_history)) (pos 77 ∷ []) sarima-IsSarima refl
      (omega arith) sarima_trained

-- a baseline that has learned nothing, and the same after 10 rows
abbrev baseline : BaselineModel ℤ
baseline = record {
  metric = "rps";
  step_sec = pos 60;
  horizon = pos 180;
  minute_seasonality = [];
  hour_seasonality = [];
  residual_std_dev = pos 0;
}

baseline_new : new_baseline "rps" (pos 60) (pos 180) ≡ baseline
unfolding new_baseline scaled ◌*ℤ◌
baseline_new = refl

baseline_train-IsLearned_example : IsLearned (baseline_train (λ bs. bs) (λ bs. bs) history baseline)
baseline_train-IsLearned_example =
    baseline_train-IsLearned (λ bs. bs) (λ bs. bs) history baseline (tt, tt)

present : present_values history ≡ values_of history
unfolding present_values lookup
present = refl

baseline_predict-IsForecast_example :
    (fc : Forecast ℤ) × (baseline_predict history baseline ≡ ok fc)
    × IsForecast (num_steps (pos 60) (pos 180)) fc
baseline_predict-IsForecast_example =
    (baseline_predict-IsForecast scaled-IsFloat64 history baseline refl).1
      (rw present (omega arith))
