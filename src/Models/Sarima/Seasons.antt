-- ===== src/Models/Sarima/Seasons.antt =====
-- The sums over the seasonal lags in the first prediction of SARIMA.
use kedastral.Base.{
  ℕ, zero, suc, ◌+◌, ◌-◌, ◌*◌, ◌≤◌, ◌≡◌, ◌⊎◌, refl, ◌∙◌, inl, inr, Bool-cases, true, false, some,
  List, [], ltb, leb, ◌==◌, length, if◌then◌else◌, ◌&&◌, ◌||◌, arith,
}
use kedastral.Float64.{Float64}
use kedastral.Models.Series.{at, autocorr, levinson_durbin, tabulate, coeffs_or}
use kedastral.Models.Series.Shape.{
  length-tabulate, length-last_n, length-coeffs_or, length-levinson_durbin,
}
use kedastral.Models.Sarima.{
  seasonal_steps, seasonal_difference, fit_seasonal_ar, fit_seasonal_ma, keep_last, seasonal_sum,
}

module _ {ℓ} {F : Type ℓ} ⦃fl : Float64 F⦄ where
  -- A sum is there when no lag reaches an index out of range.
  pub seasonal_sum-some :
      (rounds i s : ℕ) (coeffs lasts : List F) (acc : F)
      → (length lasts ≡ 0) ⊎ (i + rounds ≤ length coeffs)
      → (x : F) × (seasonal_sum rounds i s coeffs lasts acc ≡ some x)
  unfolding seasonal_sum
  seasonal_sum-some zero i s coeffs lasts acc h = (acc, refl)
  seasonal_sum-some (suc rounds) i s coeffs lasts acc h =
      let n = length lasts in
      let next =
        if ltb ((i + 1) * s) n
        then fl.add acc (fl.mul (at coeffs i) (at lasts (n - 1 - (i + 1) * s)))
        else acc in
      let (x, e) = seasonal_sum-some rounds (i + 1) s coeffs lasts next (ground (arith, h)) in
      let found : (ltb ((i + 1) * s) n && leb (length coeffs) i) ≡ false = ground (arith, h) in
      (x, rw found e)

  -- A lag that reaches before the first of the last values adds nothing.
  pub seasonal_sum_short :
      (s : ℕ) (coeffs lasts : List F) (acc : F)
      → length lasts ≤ s
      → seasonal_sum 1 0 s coeffs lasts acc ≡ some acc
  unfolding seasonal_sum
  seasonal_sum_short s coeffs lasts acc h = ground (arith, h)

  pub length-keep_last :
      (needed : ℕ) (xs old : List F)
      → 1 ≤ needed
      → needed ≤ length xs
      → length (keep_last needed xs old) ≡ needed
  unfolding keep_last
  length-keep_last needed xs old h k =
      let e : (ltb 0 needed && leb needed (length xs)) ≡ true = ground (arith, h, k) in
      rw e (length-last_n needed xs k)

  pub keep_last_none : (needed : ℕ) (old : List F) → keep_last needed [] old ≡ old
  unfolding keep_last
  keep_last_none needed old = ground arith

  length-seasonal_steps :
      (s : ℕ) (series : List F) → length (seasonal_steps s series) ≡ length series - s
  unfolding seasonal_steps
  length-seasonal_steps s series = length-tabulate _ 0 _

  pub length-seasonal_difference :
      (d s : ℕ) (series : List F)
      → d ≤ 1
      → (1 ≤ d → s + 1 ≤ length series)
      → length (seasonal_difference series d s) ≡ length series - s * d
  unfolding seasonal_difference
  length-seasonal_difference zero s series h k = omega arith
  length-seasonal_difference (suc zero) s series h k = elim (Bool-cases (s == 0)) [
    | inl e ↦ ground (arith, e)
    | inr e ↦
        let longer : leb (length series) s ≡ false = ground (arith, k) in
        rw (e, longer) (length-seasonal_steps s series ∙ omega arith)
  ]
  length-seasonal_difference (suc (suc d)) s series h k = absurd (omega (arith, h))

  fit_seasonal_ar_lem :
      (centered : List F) (sp s : ℕ)
      → fit_seasonal_ar centered sp s ≡ (
          if sp == 0 || s == 0
          then []
          else coeffs_or sp
              (fl.decimal 3 1)
              (levinson_durbin (tabulate (sp + 1) 0 (λ k. autocorr centered (k * s))) sp))
  unfolding fit_seasonal_ar
  fit_seasonal_ar_lem centered sp s = refl

  pub length-fit_seasonal_ar :
      (centered : List F) (sp s : ℕ)
      → (1 ≤ sp → 1 ≤ s)
      → length (fit_seasonal_ar centered sp s) ≡ sp
  length-fit_seasonal_ar centered sp s h = elim (Bool-cases (sp == 0 || s == 0)) [
    | inl e ↦ rw (fit_seasonal_ar_lem centered sp s, e) (ground (arith, e, h))
    | inr e ↦
        rw (fit_seasonal_ar_lem centered sp s, e)
          (length-coeffs_or sp (fl.decimal 3 1) _
            (length-levinson_durbin (tabulate (sp + 1) 0 (λ k. autocorr centered (k * s))) sp))
  ]

  pub length-fit_seasonal_ma :
      (residuals : List F) (sq s : ℕ)
      → (1 ≤ sq → 1 ≤ s)
      → 1 ≤ length residuals
      → length (fit_seasonal_ma residuals sq s) ≡ sq
  unfolding fit_seasonal_ma
  length-fit_seasonal_ma residuals sq s h k =
      elim (Bool-cases (sq == 0 || s == 0 || length residuals == 0)) [
        | inl e ↦ rw e (ground (arith, e, h, k))
        | inr e ↦ rw e (length-tabulate sq 0 _)
      ]
