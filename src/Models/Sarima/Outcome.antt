-- ===== src/Models/Sarima/Outcome.antt =====
-- The outcome of a prediction of SARIMA after a training.
use kedastral.Base.{
  ℕ, zero, suc, ◌+◌, ◌*◌, ◌≤◌, ◌≡◌, ◌⊎◌, refl, subst, ◌∙◌, inl, inr, Bool-cases, Option-cases, Bool,
  true, false, some, List, [], ◌∷◌, length, ltb, ◌==◌, if◌then◌else◌, arith,
}
use kedastral.Base.Result.{ok, err, ◌>>=◌, >>=-eq-ok}
use kedastral.Float64.{Float64, int_lit}
use kedastral.Features.{FeatureFrame}
use kedastral.Models.Series.Shape.{length-fit_ar, length-fit_ma}
use kedastral.Models.Outlook.{too_few_points, panics, values_from, lagged_sum}
use kedastral.Models.Outlook.Bounds.{lagged_sum-eq-none, lagged_sum-some}
use kedastral.Models.Arima.{max_of}
use kedastral.Models.Arima.Fitted.{length-values_from}
use kedastral.Models.Sarima.{
  SarimaModel, sarima_min_points, sarima_centered, sarima_residuals, keep_last, sarima_fit,
  sarima_train, seasonal_sum, sarima_first, sarima_predict,
}
use kedastral.Models.Sarima.Seasons.{
  seasonal_sum-some, seasonal_sum_short, length-keep_last, keep_last_none, length-fit_seasonal_ar,
  length-fit_seasonal_ma,
}
use kedastral.Models.Sarima.Fitted.{
  IsSarima, residual_count, HasSarimaForecast, sarima_predict_lem, sarima_forecast-HasForecast,
  sarima_first-eq-none, sarima_first-some, enough_for_orders, fits_int, length-sarima_residuals,
}

max_low : (a b : ℕ) → 1 ≤ a → 1 ≤ max_of a b
max_low a b h = ground (arith, h)

max_bound : (a b n : ℕ) → a ≤ n → b ≤ n → max_of a b ≤ n
max_bound a b n h k = ground (arith, h, k)

span_bound : (s sp rest n : ℕ) → (1 ≤ s → s * sp + rest ≤ n) → s * sp ≤ n
span_bound zero sp rest n h = omega arith
span_bound (suc s) sp rest n h = omega (arith, h (omega arith))

unless_zero : (n q : ℕ) → 1 ≤ n → (if n == 0 then 0 else q) ≡ q
unless_zero n q h = ground (arith, h)

module _ {ℓ} {F : Type ℓ} ⦃fl : Float64 F⦄ where
  -- What `m'` keeps of `n` values that `m` was trained on.
  record IsFitted (m : SarimaModel F) (n : ℕ) (m' : SarimaModel F) : Type ℓ where
    trained : m'.trained ≡ true
    same_p : m'.p ≡ m.p
    same_q : m'.q ≡ m.q
    same_sp : m'.sp ≡ m.sp
    same_s : m'.s ≡ m.s
    same_sq : m'.sq ≡ m.sq
    ar : length m'.ar_coeffs ≡ m.p
    seasonal_ar : length m'.seasonal_ar_coeffs ≡ m.sp
    values : length m'.last_values ≡ max_of m.p (m.s * m.sp)
    no_ma : residual_count m n ≡ 0 → length m'.ma_coeffs ≡ 0
    no_errors : residual_count m n ≡ 0 → m'.last_errors ≡ m.last_errors
    ma : 1 ≤ residual_count m n → length m'.ma_coeffs ≡ m.q
    seasonal_ma : 1 ≤ residual_count m n → length m'.seasonal_ma_coeffs ≡ m.sq

  keep_last_empty : (needed : ℕ) (xs old : List F) → length xs ≡ 0 → keep_last needed xs old ≡ old
  keep_last_empty needed [] old h = keep_last_none needed old
  keep_last_empty needed (x ∷ xs) old h = absurd (omega (arith, h))

  sarima_fit-IsFitted :
      (m : SarimaModel F) (values : List F)
      → IsSarima m
      → sarima_min_points m ≤ length values
      → IsFitted m (length values) (sarima_fit m values)
  unfolding sarima_fit
  sarima_fit-IsFitted m values h enough =
      let (hp, hq, hd, hsd, hsp, hd1, hsq, _) = h in
      let more = enough_for_orders m (length values) (fits_int m h) enough in
      let count = length-sarima_residuals m values h enough in
      record {
        trained = refl;
        same_p = refl;
        same_q = refl;
        same_sp = refl;
        same_s = refl;
        same_sq = refl;
        ar = length-fit_ar (sarima_centered m values) m.p;
        seasonal_ar = length-fit_seasonal_ar (sarima_centered m values) m.sp m.s hsp;
        values =
            length-keep_last (max_of m.p (m.s * m.sp)) values m.last_values
              (max_low m.p (m.s * m.sp) hp)
              (max_bound m.p (m.s * m.sp) (length values) (omega (arith, more))
                (span_bound m.s m.sp (m.s * m.sd) (length values) more.2));
        no_ma = λ e. length-fit_ma (sarima_residuals m values) m.q ∙ rw (count, e) refl;
        no_errors = λ e.
            keep_last_empty (max_of m.q (m.s * m.sq)) (sarima_residuals m values) m.last_errors
              (count ∙ e);
        ma = λ e. length-fit_ma (sarima_residuals m values) m.q ∙ rw count (unless_zero _ m.q e);
        seasonal_ma =
            λ e. length-fit_seasonal_ma (sarima_residuals m values) m.sq m.s hsq (rw count e);
      }

  sarima_train_lem :
      (history : FeatureFrame F) (m : SarimaModel F)
      → sarima_train true history m ≡ (
          values_from 0 history >>= λ values.
          (if ltb (length values) (sarima_min_points m)
            then err too_few_points
            else ok (sarima_fit m values)))
  unfolding sarima_train
  sarima_train_lem history m = refl

  pub sarima_train-ok :
      (history : FeatureFrame F) (m : SarimaModel F) (values : List F)
      → values_from 0 history ≡ ok values
      → ltb (length values) (sarima_min_points m) ≡ false
      → sarima_train true history m ≡ ok (sarima_fit m values)
  sarima_train-ok history m values e c = rw (sarima_train_lem history m, e, c) refl

  sarima_train-IsFitted :
      (history : FeatureFrame F) (m m' : SarimaModel F)
      → IsSarima m
      → sarima_train true history m ≡ ok m'
      → IsFitted m (length history) m'
  sarima_train-IsFitted history m m' h e =
      let (values, ev, e2) =
        >>=-eq-ok (values_from 0 history) _ m' (rw (sarima_train_lem history m) at e) in
      elim (Bool-cases (ltb (length values) (sarima_min_points m))) [
        | inl c ↦ ground (arith, rw c at e2)
        | inr c ↦
            let fitted : sarima_fit m values ≡ m' = ground (arith, rw c at e2) in
            subst (IsFitted m (length history)) fitted (
              subst (λ n. IsFitted m n (sarima_fit m values))
                (length-values_from 0 history values ev)
                (sarima_fit-IsFitted m values h (ground (arith, c))))
      ]

  errors_or_residuals :
      (m m' : SarimaModel F) (n : ℕ)
      → IsFitted m n m'
      → (1 ≤ residual_count m n) ⊎ (length m.last_errors ≡ 0)
      → (1 ≤ residual_count m n) ⊎ (length m'.last_errors ≡ 0)
  errors_or_residuals m m' n fit (inl r) = inl r
  errors_or_residuals m m' n fit (inr e) = elim (Bool-cases (residual_count m n == 0)) [
    | inl c ↦ inr (ground (arith, fit.no_errors (ground (arith, c)), e))
    | inr c ↦ inl (ground (arith, c))
  ]

  ma_in_range :
      (m m' : SarimaModel F) {n : ℕ}
      → IsFitted m n m'
      → (1 ≤ residual_count m n) ⊎ (length m.last_errors ≡ 0)
      → ltb
          (length m'.ma_coeffs)
          (if ltb m'.q (length m'.last_errors) then m'.q else length m'.last_errors)
        ≡ false
  ma_in_range m m' {n} fit r = elim (errors_or_residuals m m' n fit r) [
    | inl c ↦ rw (fit.ma c, fit.same_q) (ground arith)
    | inr c ↦ rw c (ground arith)
  ]

  seasonal_ma_in_range :
      (m m' : SarimaModel F) {n : ℕ}
      → IsFitted m n m'
      → (1 ≤ residual_count m n) ⊎ (length m.last_errors ≡ 0)
      → (length m'.last_errors ≡ 0) ⊎ (0 + m'.sq ≤ length m'.seasonal_ma_coeffs)
  seasonal_ma_in_range m m' {n} fit r = elim (errors_or_residuals m m' n fit r) [
    | inl c ↦ inr (rw (fit.seasonal_ma c, fit.same_sq) (omega arith))
    | inr c ↦ inl c
  ]

  -- For a model of the constructor whose sums and products of orders fit an int: after a successful
  -- training that left residuals, or without errors kept from an earlier one, SARIMA
  -- answers a forecast with one value for each step, and as many in each quantile. After one that left
  -- no residuals, with errors kept from an earlier one, its prediction panics.
  pub sarima_predict-train :
      (history : FeatureFrame F) (m m' : SarimaModel F)
      → IsSarima m
      → sarima_train true history m ≡ ok m'
      → (residual_count m (length history) ≡ 0
          → 1 ≤ length m.last_errors
          → sarima_predict true m' ≡ err panics)
        × ((1 ≤ residual_count m (length history)) ⊎ (length m.last_errors ≡ 0)
            → HasSarimaForecast m')
  sarima_predict-train history m m' h e =
      let fit = sarima_train-IsFitted history m m' h e in
      let (x, ex) =
        lagged_sum-some m'.p m'.ar_coeffs m'.last_values (ground (arith, fit.ar, fit.same_p)) in
      let (y, ey) =
        seasonal_sum-some m'.sp 0 m'.s m'.seasonal_ar_coeffs m'.last_values (int_lit 0)
          (inr (omega (arith, fit.seasonal_ar, fit.same_sp))) in
      (
        λ r k.
            let missing =
              lagged_sum-eq-none m'.q m'.ma_coeffs m'.last_errors
                (rw (fit.no_errors r) (ground (arith, fit.no_ma r, fit.same_q, h, k))) in
            rw (sarima_predict_lem m' fit.trained, sarima_first-eq-none m' x y ex ey missing) refl,
        λ r.
            let (z, ez) =
              lagged_sum-some m'.q m'.ma_coeffs m'.last_errors (ma_in_range m m' fit r) in
            let (w, ew) =
              seasonal_sum-some m'.sq 0 m'.s m'.seasonal_ma_coeffs m'.last_errors (int_lit 0)
                (seasonal_ma_in_range m m' fit r) in
            let (first, ef) = sarima_first-some m' x y z w ex ey ez ew in
            sarima_forecast-HasForecast m' first fit.trained ef,
      )

  -- the model with other seasonal coefficients
  abbrev pub with_seasonal_ar : List F → SarimaModel F → SarimaModel F
  with_seasonal_ar coeffs m = record m { seasonal_ar_coeffs = coeffs }

  lone_season :
      (m : SarimaModel F) (coeffs : List F)
      → m.sp ≡ 1
      → length m.last_values ≤ m.s
      → seasonal_sum m.sp 0 m.s coeffs m.last_values (int_lit 0) ≡ some (int_lit 0)
  lone_season m coeffs h k = rw h (seasonal_sum_short m.s coeffs m.last_values (int_lit 0) k)

  sarima_first_same :
      (m : SarimaModel F) (coeffs : List F)
      → m.sp ≡ 1
      → length m.last_values ≤ m.s
      → sarima_first (with_seasonal_ar coeffs m) ≡ sarima_first m
  unfolding sarima_first
  sarima_first_same m coeffs h k = elim (Option-cases (lagged_sum m.p m.ar_coeffs m.last_values)) [
    | inl e ↦ rw (sarima_first, e) refl
    | inr (x, e) ↦
        rw (sarima_first, e, lone_season m coeffs h k, lone_season m m.seasonal_ar_coeffs h k) refl
  ]

  sarima_predict_same :
      (live : Bool) (m : SarimaModel F) (coeffs : List F)
      → sarima_first (with_seasonal_ar coeffs m) ≡ sarima_first m
      → sarima_predict live (with_seasonal_ar coeffs m) ≡ sarima_predict live m
  unfolding sarima_predict
  sarima_predict_same live m coeffs h = rw (sarima_predict, h) refl

  -- With a single seasonal lag, and a period that is not below the order p, the forecast after a
  -- training does not depend on the fitted seasonal coefficient: any other gives the same forecast.
  pub sarima_predict_seasonless :
      (live : Bool) (history : FeatureFrame F) (m m' : SarimaModel F) (coeffs : List F)
      → IsSarima m
      → m.sp ≡ 1
      → m.p ≤ m.s
      → sarima_train true history m ≡ ok m'
      → sarima_predict live (with_seasonal_ar coeffs m') ≡ sarima_predict live m'
  sarima_predict_seasonless live history m m' coeffs h one k e =
      let fit = sarima_train-IsFitted history m m' h e in
      sarima_predict_same live m' coeffs (
        sarima_first_same m' coeffs (fit.same_sp ∙ one)
          (rw (fit.values, fit.same_s, one) (ground (arith, k))))
