-- ===== src/Models/Baseline/Predict/Bounds.antt =====
-- What the baseline answers, and the limits on what it predicts.
use kedastral.Base.{
  ℕ, zero, suc, ◌+◌, ◌≤◌, ◌==◌, ◌≡◌, refl, ap, subst, inl, inr, Bool-cases, false, some, List, [],
  ◌∷◌, All, length, if◌then◌else◌, arith,
}
use kedastral.Base.Int.{pos, eqb_ℤ}
use kedastral.Base.Dict.{Dict}
use kedastral.Base.Result.{ok, err}
use kedastral.Float64.{Float64, IsFloat64, int_lit}
use kedastral.Features.{FeatureFrame}
use kedastral.Forecaster.Tick.{Forecast}
use kedastral.Models.Series.{tabulate}
use kedastral.Models.Series.Shape.{length-tabulate}
use kedastral.Models.Outlook.{ModelError, no_rows, no_values, panics, num_steps}
use kedastral.Models.Outlook.Bounds.{AreAligned, AreNotNegative, number_not_below}
use kedastral.Models.Baseline.{BaselineModel}
use kedastral.Models.Baseline.Predict.{
  present_values, baseline_value, baseline_quantile, baseline_quantiles, baseline_forecast,
  baseline_predict,
}

module _ {ℓ} {F : Type ℓ} ⦃fl : Float64 F⦄ where
  abbrev pub IsNotNegative : F → Type 0
  IsNotNegative v = fl.lt v (int_lit 0) ≡ false

  tabulate-All :
      (P : F → Type 0) (n i : ℕ) (f : ℕ → F) → ((j : ℕ) → P (f j)) → All P (tabulate n i f)
  unfolding tabulate
  tabulate-All P zero i f h = tt
  tabulate-All P (suc n) i f h = (h i, tabulate-All P n (i + 1) f h)

  baseline_value-IsNotNegative :
      IsFloat64 F
      → (m : BaselineModel F) (features : FeatureFrame F) (values : List F) (i : ℕ)
      → IsNotNegative (baseline_value m features values i)
  unfolding baseline_value
  baseline_value-IsNotNegative laws m features values i =
      clipped _ (number_not_below laws (int_lit 0) (int_lit 0) (laws.of_int_mono _ _ (omega arith)))
    where
      clipped :
          (x : F)
          → fl.lt (int_lit 0) (int_lit 0) ≡ false
          → IsNotNegative (if fl.lt x (int_lit 0) then int_lit 0 else x)
      clipped x h = ground (arith, h)

  length-baseline_quantile :
      (z std_dev : F) (values : List F)
      → length (baseline_quantile z std_dev values) ≡ length values
  unfolding baseline_quantile
  length-baseline_quantile z std_dev [] = refl
  length-baseline_quantile z std_dev (v ∷ vs) = ap suc (length-baseline_quantile z std_dev vs)

  baseline_quantile-IsNotNegative :
      IsFloat64 F
      → (z std_dev : F) (values : List F) → All IsNotNegative (baseline_quantile z std_dev values)
  unfolding baseline_quantile
  baseline_quantile-IsNotNegative laws z std_dev [] = tt
  baseline_quantile-IsNotNegative laws z std_dev (v ∷ vs) =
      (laws.fmax_low _ _, baseline_quantile-IsNotNegative laws z std_dev vs)

  baseline_quantiles-AreAligned :
      (std_dev : F) (values : List F) → AreAligned values (baseline_quantiles std_dev values)
  unfolding baseline_quantiles
  baseline_quantiles-AreAligned std_dev values =
      let same = λ (z : F). length-baseline_quantile z std_dev values in
      elim (Bool-cases (fl.lt (int_lit 0) std_dev)) [
        | inl e ↦ rw e (same _, (same _, (same _, (same _, tt))))
        | inr e ↦ rw e tt
      ]

  baseline_quantiles-AreNotNegative :
      IsFloat64 F
      → (std_dev : F) (values : List F) → AreNotNegative (baseline_quantiles std_dev values)
  unfolding baseline_quantiles
  baseline_quantiles-AreNotNegative laws std_dev values =
      let low = λ (z : F). baseline_quantile-IsNotNegative laws z std_dev values in
      elim (Bool-cases (fl.lt (int_lit 0) std_dev)) [
        | inl e ↦ rw e (low _, (low _, (low _, (low _, tt))))
        | inr e ↦ rw e tt
      ]

  -- What the interface of a model asks of a forecast of `n` values.
  pub record IsForecast (n : ℕ) (fc : Forecast F) : Type ℓ where
    pub count : length fc.values ≡ n
    pub low : All IsNotNegative fc.values
    pub aligned : (qs : List (F × List F)) → fc.quantiles ≡ some qs → AreAligned fc.values qs
    pub quantiles_low : (qs : List (F × List F)) → fc.quantiles ≡ some qs → AreNotNegative qs

  baseline_forecast-IsForecast :
      IsFloat64 F
      → (features : FeatureFrame F) (present : List F) (m : BaselineModel F)
      → IsForecast (num_steps m.step_sec m.horizon) (baseline_forecast features present m)
  unfolding baseline_forecast
  baseline_forecast-IsForecast laws features present m =
      let n = num_steps m.step_sec m.horizon in
      let values = tabulate n 0 (baseline_value m features present) in
      record {
        count = length-tabulate n 0 (baseline_value m features present);
        low =
            tabulate-All IsNotNegative n 0 (baseline_value m features present)
              (baseline_value-IsNotNegative laws m features present);
        aligned = λ qs e.
            subst (AreAligned values) (ground (arith, e))
              (baseline_quantiles-AreAligned m.residual_std_dev values);
        quantiles_low = λ qs e.
            subst AreNotNegative (ground (arith, e))
              (baseline_quantiles-AreNotNegative laws m.residual_std_dev values);
      }

  baseline_predict_lem :
      (row : Dict F) (rows : FeatureFrame F) (m : BaselineModel F)
      → baseline_predict (row ∷ rows) m ≡ (
          if length (present_values (row ∷ rows)) == 0
          then err no_values
          else if eqb_ℤ m.step_sec (pos 0)
          then err panics
          else ok (baseline_forecast (row ∷ rows) (present_values (row ∷ rows)) m))
  unfolding baseline_predict
  baseline_predict_lem row rows m = refl

  no_rows_lem : (m : BaselineModel F) → baseline_predict [] m ≡ err no_rows
  unfolding baseline_predict
  no_rows_lem m = refl

  no_present : (m : BaselineModel F) → length (present_values {F = F} []) ≡ 0
  unfolding present_values
  no_present m = refl

  -- With a step that is not zero the baseline answers an error exactly when no row has a value.
  -- Otherwise it answers a forecast with one value for each step, in which no value and no value of a
  -- quantile is below 0, and each quantile has as many values.
  pub baseline_predict-IsForecast :
      IsFloat64 F
      → (features : FeatureFrame F) (m : BaselineModel F) → eqb_ℤ m.step_sec (pos 0) ≡ false
      → (length (present_values features) ≡ 0
          → (e : ModelError) × (baseline_predict features m ≡ err e))
        × (1 ≤ length (present_values features)
            → (fc : Forecast F) × (baseline_predict features m ≡ ok fc)
              × IsForecast (num_steps m.step_sec m.horizon) fc)
  baseline_predict-IsForecast laws [] m h =
      (λ c. (no_rows, no_rows_lem m), λ c. absurd (ground (arith, no_present m, c)))
  baseline_predict-IsForecast laws (row ∷ rows) m h = (
    λ c. (no_values, rw (baseline_predict_lem row rows m, c) (ground arith)),
    λ c.
        let some_value : (length (present_values (row ∷ rows)) == 0) ≡ false = ground (arith, c) in
        (
          baseline_forecast (row ∷ rows) (present_values (row ∷ rows)) m,
          rw (baseline_predict_lem row rows m, some_value, h) refl,
          baseline_forecast-IsForecast laws (row ∷ rows) (present_values (row ∷ rows)) m,
        ),
  )
