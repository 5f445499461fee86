-- ===== src/Backtest/Metrics.antt =====
-- pkg/backtest/metrics.go. `none` is an index out of the range of the second list.
use kedastral.Base.{
  ℕ, zero, suc, ◌+◌, ◌==◌, Bool, true, false, Option, none, some, List, [], ◌∷◌, ltb, length,
  if◌then◌else◌,
}
use kedastral.Base.Int.{ℤ, pos, ltb_ℤ, leb_ℤ, ◌-ℤ◌}
use kedastral.Float64.{Float64, int_lit}
pub mod Rates

module _ {ℓ} {F : Type ℓ} ⦃fl : Float64 F⦄ where
  -- A sum over the places of two lists, and how many of them count.
  unfoldable pub sum_errors : (F → F → F) → List F → List F → F → Option F
  sum_errors term [] actual acc = some acc
  sum_errors term (p ∷ ps) [] acc = none
  sum_errors term (p ∷ ps) (a ∷ as') acc = sum_errors term ps as' (fl.add acc (term p a))

  unfoldable pub mae : List F → List F → Option F
  unfolding sum_errors
  mae [] actual = some (int_lit 0)
  mae (p ∷ ps) actual = elim (sum_errors (λ x y. fl.abs (fl.sub x y)) (p ∷ ps) actual (int_lit 0)) [
    | none ↦ none
    | some sum ↦ some (fl.div sum (int_lit (length (p ∷ ps))))
  ]

  unfoldable pub rmse : List F → List F → Option F
  unfolding sum_errors
  rmse [] actual = some (int_lit 0)
  rmse (p ∷ ps) actual =
      elim (sum_errors (λ x y. fl.mul (fl.sub x y) (fl.sub x y)) (p ∷ ps) actual (int_lit 0)) [
        | none ↦ none
        | some sum ↦ some (fl.sqrt (fl.div sum (int_lit (length (p ∷ ps)))))
      ]

  -- The loop of `MAPE`.
  unfoldable pub sum_percent : List F → List F → F → ℕ → Option (F × ℕ)
  sum_percent [] actual sum count = some (sum, count)
  sum_percent (p ∷ ps) [] sum count = none
  sum_percent (p ∷ ps) (a ∷ as') sum count =
      let rest = sum_percent ps as' (fl.add sum (fl.abs (fl.div (fl.sub p a) a))) (count + 1) in
      let skipped = sum_percent ps as' sum count in if fl.eq a (int_lit 0) then skipped else rest

  unfoldable pub mape : List F → List F → Option F
  unfolding sum_percent
  mape predicted actual = elim (sum_percent predicted actual (int_lit 0) 0) [
    | none ↦ none
    | some (sum, count) ↦
        some (if count == 0 then int_lit 0 else fl.mul (fl.div sum (int_lit count)) (int_lit 100))
  ]

-- How many planned counts are below the needed ones.
unfoldable pub count_under : List ℤ → List ℤ → ℕ → Option ℕ
count_under [] needed under = some under
count_under (p ∷ ps) [] under = none
count_under (p ∷ ps) (n ∷ ns) under = count_under ps ns (if ltb_ℤ p n then under + 1 else under)

module _ {ℓ} {F : Type ℓ} ⦃fl : Float64 F⦄ where
  unfoldable pub under_provisioned_rate : List ℤ → List ℤ → Option F
  unfolding count_under
  under_provisioned_rate [] needed = some (int_lit 0)
  under_provisioned_rate (p ∷ ps) needed = elim (count_under (p ∷ ps) needed 0) [
    | none ↦ none
    | some under ↦ some (fl.div (int_lit under) (int_lit (length (p ∷ ps))))
  ]

  -- The loop of `MeanOverProvision`.
  unfoldable pub sum_over : List ℤ → List ℤ → F → ℕ → Option (F × ℕ)
  unfolding ◌-ℤ◌
  sum_over [] needed sum count = some (sum, count)
  sum_over (p ∷ ps) [] sum count = none
  sum_over (p ∷ ps) (n ∷ ns) sum count =
      let over = fl.div (fl.of_int (p -ℤ n)) (fl.of_int n) in
      let rest =
        sum_over ps ns (if fl.lt (int_lit 0) over then fl.add sum over else sum) (count + 1) in
      let skipped = sum_over ps ns sum count in if leb_ℤ n (pos 0) then skipped else rest

  unfoldable pub mean_over_provision : List ℤ → List ℤ → Option F
  unfolding sum_over
  mean_over_provision planned needed = elim (sum_over planned needed (int_lit 0) 0) [
    | none ↦ none
    | some (sum, count) ↦ some (if count == 0 then int_lit 0 else fl.div sum (int_lit count))
  ]
