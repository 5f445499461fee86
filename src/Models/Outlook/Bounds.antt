-- ===== src/Models/Outlook/Bounds.antt =====
-- The number of the values of a forecast, and the limits that they keep.
use kedastral.Base.{
  ℕ, zero, suc, ◌+◌, ◌≡◌, refl, ap, inl, inr, Bool-cases, true, false, none, some, List, [], ◌∷◌,
  ◌++◌, if◌then◌else◌, length, length-append, All, All-append, arith, ltb,
}
use kedastral.Float64.{Float64, IsFloat64, int_lit, ◌≼◌}
use kedastral.Models.Outlook.{cap, clamp, predict_loop, quantile_values, quantiles_of, lagged_sum}

module _ {ℓ} {F : Type ℓ} ⦃fl : Float64 F⦄ where
  pub length-predict_loop :
      (rounds : ℕ) (next : List F → F) (base : F) (preds : List F)
      → length (predict_loop rounds next base preds) ≡ length preds + rounds
  unfolding predict_loop
  length-predict_loop zero next base preds = omega arith
  length-predict_loop (suc rounds) next base preds =
      let longer = preds ++ clamp base (next preds) ∷ [] in
      omega (
        arith,
        length-predict_loop rounds next base longer,
        length-append preds (clamp base (next preds) ∷ []),
      )

  length-quantile_values :
      (z std_dev : F) (i : ℕ) (values : List F)
      → length (quantile_values z std_dev i values) ≡ length values
  unfolding quantile_values
  length-quantile_values z std_dev i [] = refl
  length-quantile_values z std_dev i (v ∷ vs) = ap suc (length-quantile_values z std_dev (i + 1) vs)

  -- Each quantile has as many values as the forecast.
  abbrev pub AreAligned : List F → List (F × List F) → Type 0
  AreAligned values = All (λ e. length e.1 ≡ length values)

  pub quantiles_of-AreAligned :
      (std_dev : F) (values : List F) → AreAligned values (quantiles_of std_dev values)
  unfolding quantiles_of
  quantiles_of-AreAligned std_dev values = elim (Bool-cases (fl.lt (int_lit 0) std_dev)) [
    | inl e ↦
        let same = λ (z : F). length-quantile_values z std_dev 0 values in
        rw e (same _, (same _, (same _, (same _, tt))))
    | inr e ↦ rw e tt
  ]

  -- Neither below 0 nor above 1e9; NaN is neither.
  abbrev pub IsSane : F → Type 0
  IsSane v = (fl.lt v (int_lit 0) ≡ false) × (fl.lt (int_lit 1000000000) v ≡ false)

  pub number_not_below : IsFloat64 F → (a b : F) → a ≼ b → fl.lt b a ≡ false
  number_not_below laws a b h =
      let (ra, rb) = laws.refl_of_le a b h in rw (laws.lt-eq-not-le b a rb ra, h) refl

  clamp-IsSane :
      IsFloat64 F
      → (base pred : F) → fl.lt (cap base) (int_lit 0) ≡ false
      → IsSane (clamp base pred)
  unfolding clamp
  clamp-IsSane laws base pred h =
      let zero_zero =
        number_not_below laws (int_lit 0) (int_lit 0) (laws.of_int_mono _ _ (omega arith)) in
      let big_zero =
        number_not_below laws (int_lit 0) (int_lit 1000000000)
          (laws.of_int_mono _ _ (omega arith)) in
      let big_big =
        number_not_below laws (int_lit 1000000000) (int_lit 1000000000)
          (laws.of_int_mono _ _ (omega arith)) in
      ground (arith, h, zero_zero, big_zero, big_big)

  pub predict_loop-AreSane :
      IsFloat64 F
      → (rounds : ℕ) (next : List F → F) (base : F) (preds : List F)
      → fl.lt (cap base) (int_lit 0) ≡ false
      → All IsSane preds
      → All IsSane (predict_loop rounds next base preds)
  unfolding predict_loop
  predict_loop-AreSane laws zero next base preds h hp = hp
  predict_loop-AreSane laws (suc rounds) next base preds h hp =
      predict_loop-AreSane laws rounds next base _ h
        (All-append IsSane preds _ hp (clamp-IsSane laws base (next preds) h, tt))

  -- No value of a quantile is below 0.
  abbrev pub AreNotNegative : List (F × List F) → Type 0
  AreNotNegative = All (λ e. All (λ v. fl.lt v (int_lit 0) ≡ false) e.1)

  quantile_values-NotNegative :
      IsFloat64 F
      → (z std_dev : F) (i : ℕ) (values : List F)
      → All (λ v. fl.lt v (int_lit 0) ≡ false) (quantile_values z std_dev i values)
  unfolding quantile_values
  quantile_values-NotNegative laws z std_dev i [] = tt
  quantile_values-NotNegative laws z std_dev i (v ∷ vs) =
      (laws.fmax_low _ _, quantile_values-NotNegative laws z std_dev (i + 1) vs)

  pub quantiles_of-AreNotNegative :
      IsFloat64 F → (std_dev : F) (values : List F) → AreNotNegative (quantiles_of std_dev values)
  unfolding quantiles_of
  quantiles_of-AreNotNegative laws std_dev values =
      let low = λ (z : F). quantile_values-NotNegative laws z std_dev 0 values in
      elim (Bool-cases (fl.lt (int_lit 0) std_dev)) [
        | inl e ↦ rw e (low _, (low _, (low _, (low _, tt))))
        | inr e ↦ rw e tt
      ]

  pub lagged_sum-eq-none :
      (order : ℕ) (coeffs lasts : List F)
      → ltb (length coeffs) (if ltb order (length lasts) then order else length lasts) ≡ true
      → lagged_sum order coeffs lasts ≡ none
  unfolding lagged_sum
  lagged_sum-eq-none order coeffs lasts h = rw h refl

  pub lagged_sum-some :
      (order : ℕ) (coeffs lasts : List F)
      → ltb (length coeffs) (if ltb order (length lasts) then order else length lasts) ≡ false
      → (x : F) × (lagged_sum order coeffs lasts ≡ some x)
  unfolding lagged_sum
  lagged_sum-some order coeffs lasts h = rw h (_, refl)
