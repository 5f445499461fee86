-- ===== src/Backtest/Metrics/Rates.antt =====
-- The metrics of lists of one length.
use kedastral.Base.{
  ℕ, ◌+◌, ◌≤◌, ◌≡◌, refl, inl, inr, Bool-cases, Option, some, List, [], ◌∷◌, length, arith,
}
use kedastral.Base.Int.{ℤ, pos, ltb_ℤ, leb_ℤ}
use kedastral.Float64.{Float64, IsFloat64, int_lit, ◌≼◌}
use kedastral.Backtest.Metrics.{
  sum_errors, mae, rmse, sum_percent, mape, count_under, under_provisioned_rate, sum_over,
  mean_over_provision,
}

-- A metric that has a value.
abbrev pub HasValue {ℓ} : {A : Type ℓ} → Option A → Type ℓ
HasValue {A = A} o = (a : A) × (o ≡ some a)

count_under_bound :
    (planned needed : List ℤ) (under : ℕ)
    → length planned ≡ length needed
    → (n : ℕ) × (count_under planned needed under ≡ some n) × (n ≤ under + length planned)
unfolding count_under
count_under_bound [] needed under h = (under, refl, omega arith)
count_under_bound (p ∷ ps) [] under h = absurd (omega (arith, h))
count_under_bound (p ∷ ps) (n ∷ ns) under h = elim (Bool-cases (ltb_ℤ p n)) [
  | inl e ↦
      let (m, eq, le) = count_under_bound ps ns (under + 1) (omega (arith, h)) in
      (m, rw e eq, omega (arith, le))
  | inr e ↦
      let (m, eq, le) = count_under_bound ps ns under (omega (arith, h)) in
      (m, rw e eq, omega (arith, le))
]

module _ {ℓ} {F : Type ℓ} ⦃fl : Float64 F⦄ where
  sum_errors-HasValue :
      (term : F → F → F) (xs ys : List F) (acc : F)
      → length xs ≡ length ys
      → HasValue (sum_errors term xs ys acc)
  unfolding sum_errors
  sum_errors-HasValue term [] ys acc h = (acc, refl)
  sum_errors-HasValue term (x ∷ xs) [] acc h = absurd (omega (arith, h))
  sum_errors-HasValue term (x ∷ xs) (y ∷ ys) acc h =
      sum_errors-HasValue term xs ys (fl.add acc (term x y)) (omega (arith, h))

  pub mae-HasValue : (xs ys : List F) → length xs ≡ length ys → HasValue (mae xs ys)
  unfolding mae
  mae-HasValue [] ys h = (_, refl)
  mae-HasValue (x ∷ xs) ys h =
      let (sum, e) = sum_errors-HasValue (λ a b. fl.abs (fl.sub a b)) (x ∷ xs) ys (int_lit 0) h in
      rw (mae, e) (_, refl)

  pub rmse-HasValue : (xs ys : List F) → length xs ≡ length ys → HasValue (rmse xs ys)
  unfolding rmse
  rmse-HasValue [] ys h = (_, refl)
  rmse-HasValue (x ∷ xs) ys h =
      let (sum, e) =
        sum_errors-HasValue (λ a b. fl.mul (fl.sub a b) (fl.sub a b)) (x ∷ xs) ys (int_lit 0) h in
      rw (rmse, e) (_, refl)

  sum_percent-HasValue :
      (xs ys : List F) (sum : F) (count : ℕ)
      → length xs ≡ length ys
      → HasValue (sum_percent xs ys sum count)
  unfolding sum_percent
  sum_percent-HasValue [] ys sum count h = (_, refl)
  sum_percent-HasValue (x ∷ xs) [] sum count h = absurd (omega (arith, h))
  sum_percent-HasValue (x ∷ xs) (y ∷ ys) sum count h = elim (Bool-cases (fl.eq y (int_lit 0))) [
    | inl e ↦ rw e (sum_percent-HasValue xs ys sum count (omega (arith, h)))
    | inr e ↦ rw e (sum_percent-HasValue xs ys _ (count + 1) (omega (arith, h)))
  ]

  pub mape-HasValue : (xs ys : List F) → length xs ≡ length ys → HasValue (mape xs ys)
  unfolding mape
  mape-HasValue xs ys h =
      let (sum, e) = sum_percent-HasValue xs ys (int_lit 0) 0 h in rw (mape, e) (_, refl)

  sum_over-HasValue :
      (xs ys : List ℤ) (sum : F) (count : ℕ)
      → length xs ≡ length ys
      → HasValue (sum_over xs ys sum count)
  unfolding sum_over
  sum_over-HasValue [] ys sum count h = (_, refl)
  sum_over-HasValue (x ∷ xs) [] sum count h = absurd (omega (arith, h))
  sum_over-HasValue (x ∷ xs) (y ∷ ys) sum count h = elim (Bool-cases (leb_ℤ y (pos 0))) [
    | inl e ↦ rw e (sum_over-HasValue xs ys sum count (omega (arith, h)))
    | inr e ↦ rw e (sum_over-HasValue xs ys _ (count + 1) (omega (arith, h)))
  ]

  pub mean_over_provision-HasValue :
      (xs ys : List ℤ) → length xs ≡ length ys → HasValue {A = F} (mean_over_provision xs ys)
  unfolding mean_over_provision
  mean_over_provision-HasValue xs ys h =
      let (sum, e) = sum_over-HasValue xs ys (int_lit 0) 0 h in
      rw (mean_over_provision, e) (_, refl)

  -- A rate: from 0 to 1.
  abbrev pub IsRate : F → Type 0
  IsRate x = (int_lit 0 ≼ x) × (x ≼ int_lit 1)

  pub under_provisioned_rate-IsRate :
      IsFloat64 F
      → (planned needed : List ℤ) → length planned ≡ length needed
      → (x : F) × (under_provisioned_rate planned needed ≡ some x) × IsRate x
  unfolding under_provisioned_rate
  under_provisioned_rate-IsRate laws [] needed h =
      (int_lit 0, refl, (laws.of_int_mono _ _ (omega arith), laws.of_int_mono _ _ (omega arith)))
  under_provisioned_rate-IsRate laws (p ∷ ps) needed h =
      let (n, e, le) = count_under_bound (p ∷ ps) needed 0 h in
      let total = int_lit (length (p ∷ ps)) in
      let (low, high) =
        laws.div_mono (int_lit n) total total (laws.of_int_mono _ _ (omega arith))
          (laws.of_int_mono _ _ (omega (arith, le))) (laws.of_int_pos (length ps))
          (laws.of_int_finite _) in
      let one = laws.div_self total (laws.of_int_pos (length ps)) (laws.of_int_finite _) in
      rw (under_provisioned_rate, e) (_, refl, (low, rw one at high))
