-- ===== src/Models/Outlook.antt =====
-- pkg/models: what `Train` and `Predict` of ARIMA and SARIMA share around their equations. The lock is
-- left out: each call is one step. `live` is whether the context has no error.
pub mod Bounds
use kedastral.Base.{
  ℕ, zero, suc, ◌+◌, ◌-◌, Bool, true, false, Option, none, some, List, [], ◌∷◌, ◌++◌, if◌then◌else◌,
  length, ltb,
}
use kedastral.Base.Int.{ℤ, pos, pos_part, leb_ℤ, quot}
use kedastral.Base.Dict.{lookup}
use kedastral.Base.Result.{Result, ok, err, ◌>>=◌}
use kedastral.Float64.{Float64, int_lit}
use kedastral.Features.{FeatureFrame}
use kedastral.Models.Series.{at, add_up}

pub data ModelError : Type 0 where
  canceled : ModelError
  missing_value : ℕ → ModelError
  too_few_points : ModelError
  not_trained : ModelError
  no_rows no_values : ModelError
  -- a panic: an index out of range, or a division by zero
  panics : ModelError

-- `horizonSec / stepSec`, and 1 at least.
unfoldable pub num_steps : ℤ → ℤ → ℕ
unfolding quot
num_steps step_sec horizon_sec =
    if leb_ℤ (quot horizon_sec step_sec) (pos 0) then 1 else pos_part (quot horizon_sec step_sec)

module _ {ℓ} {F : Type ℓ} ⦃fl : Float64 F⦄ where
  -- The loop over the rows from `i` on, which collects their values.
  unfoldable pub values_from : ℕ → FeatureFrame F → Result ModelError (List F)
  unfolding lookup
  values_from i [] = ok []
  values_from i (row ∷ rows) = elim (lookup "value" row) [
    | none ↦ err (missing_value i)
    | some v ↦ values_from (i + 1) rows >>= λ vs. ok (v ∷ vs)
  ]

  -- `baseValue`
  unfoldable pub last_or_zero : List F → F
  last_or_zero [] = int_lit 0
  last_or_zero (x ∷ []) = x
  last_or_zero (x ∷ y ∷ xs) = last_or_zero (y ∷ xs)

  -- One sum of the first prediction: the products of `coeffs` with the last values, backwards.
  -- `none` is an index out of the range of `coeffs`.
  unfoldable pub lagged_sum : ℕ → List F → List F → Option F
  unfolding add_up
  lagged_sum order coeffs lasts =
      let rounds = if ltb order (length lasts) then order else length lasts in
      if ltb (length coeffs) rounds
      then none
      else some (
          add_up rounds 0 (λ i. fl.mul (at coeffs i) (at lasts (length lasts - 1 - i))) (int_lit 0))

  -- `baseValue*2 + 100`
  unfoldable pub cap : F → F
  cap base = fl.add (fl.mul base (int_lit 2)) (int_lit 100)

  -- The limits on a prediction, in the order of the source.
  unfoldable pub clamp : F → F → F
  unfolding cap
  clamp base pred =
      let low = if fl.lt pred (int_lit 0) then int_lit 0 else pred in
      let mid = if fl.lt (cap base) low then cap base else low in
      if fl.lt (int_lit 1000000000) mid then int_lit 1000000000 else mid

  -- `1.0 / (1.0 + float64(t)*0.1)`
  unfoldable pub damping_factor : ℕ → F
  damping_factor t = fl.div (int_lit 1) (fl.add (int_lit 1) (fl.mul (int_lit t) (fl.decimal 1 1)))

  -- The loop over `t`: `preds` are the predictions before `t`, and `next` makes the one at `t` of
  -- them.
  unfoldable pub predict_loop : ℕ → (List F → F) → F → List F → List F
  unfolding clamp
  predict_loop zero next base preds = preds
  predict_loop (suc rounds) next base preds =
      predict_loop rounds next base (preds ++ clamp base (next preds) ∷ [])

  -- The values of the quantile with the factor `z`, from the place `i` on.
  unfoldable pub quantile_values : F → F → ℕ → List F → List F
  quantile_values z std_dev i [] = []
  quantile_values z std_dev i (v ∷ vs) =
      let horizon_factor = fl.sqrt (fl.add (int_lit 1) (fl.mul (int_lit i) (fl.decimal 1 1))) in
      fl.fmax (int_lit 0) (fl.add v (fl.mul (fl.mul z std_dev) horizon_factor))
      ∷ quantile_values z std_dev (i + 1) vs

  -- The map of quantiles, empty without a deviation.
  unfoldable pub quantiles_of : F → List F → List (F × List F)
  unfolding quantile_values
  quantiles_of std_dev values =
      if fl.lt (int_lit 0) std_dev
      then (fl.decimal 50 2, quantile_values (int_lit 0) std_dev 0 values)
        ∷ (fl.decimal 75 2, quantile_values (fl.decimal 674 3) std_dev 0 values)
        ∷ (fl.decimal 90 2, quantile_values (fl.decimal 1282 3) std_dev 0 values)
        ∷ (fl.decimal 95 2, quantile_values (fl.decimal 1645 3) std_dev 0 values)
        ∷ []
      else []
