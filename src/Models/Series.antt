-- ===== src/Models/Series.antt =====
-- pkg/models/arima.go: the statistics of a series that ARIMA and SARIMA are fitted with. A sum is taken
-- in the order of the source, since floats do not associate.
pub mod Shape
use kedastral.Base.{
  ℕ, zero, suc, ◌+◌, ◌-◌, Bool, true, false, ◌&&◌, Option, none, some, List, [], ◌∷◌, ◌++◌, ltb,
  leb, ◌==◌, if◌then◌else◌, length, get_or,
}
use kedastral.Base.Int.{pos}
use kedastral.Float64.{Float64, int_lit}

-- `make([]float64, n)` with `x` in each place
unfoldable pub replicate {ℓ} : {A : Type ℓ} → ℕ → A → List A
replicate zero x = []
replicate (suc n) x = x ∷ replicate n x

-- `for i := i; ...; i++ { out[i] = f(i) }` with `rounds` rounds left
unfoldable pub tabulate {ℓ} : {A : Type ℓ} → ℕ → ℕ → (ℕ → A) → List A
tabulate zero i f = []
tabulate (suc rounds) i f = f i ∷ tabulate rounds (i + 1) f

-- The last `n` elements: `copy(out, xs[len(xs)-n:])`.
unfoldable pub last_n {ℓ} : {A : Type ℓ} → ℕ → List A → List A
last_n n [] = []
last_n n (x ∷ xs) = let rest = last_n n xs in if leb (length (x ∷ xs)) n then x ∷ xs else rest

module _ {ℓ} {F : Type ℓ} ⦃fl : Float64 F⦄ where
  -- `for i := i; ...; i++ { acc += term(i) }` with `rounds` rounds left
  unfoldable pub add_up : ℕ → ℕ → (ℕ → F) → F → F
  add_up zero i term acc = acc
  add_up (suc rounds) i term acc = add_up rounds (i + 1) term (fl.add acc (term i))

  unfoldable pub sub_up : ℕ → ℕ → (ℕ → F) → F → F
  sub_up zero i term acc = acc
  sub_up (suc rounds) i term acc = sub_up rounds (i + 1) term (fl.sub acc (term i))

  -- `xs[i]` for an index in the range of `xs`.
  abbrev pub at : List F → ℕ → F
  at xs i = get_or xs i (int_lit 0)

  unfoldable pub steps : List F → List F
  steps [] = []
  steps (x ∷ []) = []
  steps (x ∷ y ∷ xs) = fl.sub y x ∷ steps (y ∷ xs)

  unfoldable pub difference : ℕ → List F → List F
  unfolding steps
  difference zero series = series
  difference (suc d) [] = []
  difference (suc d) (x ∷ xs) = elim d [
    | zero ↦ steps (x ∷ xs)
    | suc e ↦ difference d (steps (x ∷ xs))
  ]

  unfoldable pub compute_mean : List F → F
  unfolding add_up
  compute_mean [] = int_lit 0
  compute_mean (x ∷ xs) =
      fl.div (add_up (length (x ∷ xs)) 0 (at (x ∷ xs)) (int_lit 0)) (int_lit (length (x ∷ xs)))

  -- `sumSq` of the differences from `mean`
  unfoldable pub sum_squares : F → List F → F
  unfolding add_up
  sum_squares mean xs =
      add_up (length xs) 0 (λ i. fl.mul (fl.sub (at xs i) mean) (fl.sub (at xs i) mean)) (int_lit 0)

  unfoldable pub compute_variance : List F → F
  unfolding compute_mean sum_squares
  compute_variance [] = int_lit 0
  compute_variance (x ∷ xs) =
      fl.div (sum_squares (compute_mean (x ∷ xs)) (x ∷ xs)) (int_lit (length (x ∷ xs)))

  unfoldable pub autocorr : List F → ℕ → F
  unfolding compute_mean sum_squares add_up
  autocorr series lag =
      let n = length series in
      let mean = compute_mean series in
      let c0 = sum_squares mean series in
      let ck =
        add_up (n - lag) 0
          (λ i. fl.mul (fl.sub (at series i) mean) (fl.sub (at series (i + lag)) mean))
          (int_lit 0) in
      if leb n lag then int_lit 0 else if fl.eq c0 (int_lit 0) then int_lit 0 else fl.div ck c0

  -- One round `k` of `levinsonDurbin`: `row` are `phi[k-1][1..k-1]`, and the result `phi[k][1..k]`.
  unfoldable pub next_row : List F → ℕ → F → List F → List F
  next_row acf k reflection row =
      tabulate (k - 1) 1 (λ j. fl.sub (at row (j - 1)) (fl.mul reflection (at row (k - j - 1))))
      ++ reflection ∷ []

  -- `phi[k][k]`, for the variance `v`.
  unfoldable pub reflection : List F → ℕ → F → List F → F
  unfolding sub_up
  reflection acf k v row =
      fl.div (sub_up (k - 1) 1 (λ j. fl.mul (at row (j - 1)) (at acf (k - j))) (at acf k)) v

  -- The loop over `k`, with `rounds` rounds left. `none` is one of its errors.
  unfoldable pub levinson_loop : ℕ → ℕ → List F → F → List F → Option (List F)
  unfolding next_row reflection
  levinson_loop zero k acf v row = some row
  levinson_loop (suc rounds) k acf v row =
      let r = reflection acf k v row in
      let w = fl.mul v (fl.sub (int_lit 1) (fl.mul r r)) in
      let rest = levinson_loop rounds (k + 1) acf w (next_row acf k r row) in
      if fl.eq v (int_lit 0) then none else if fl.lt w (int_lit 0) then none else rest

  unfoldable pub levinson_durbin : List F → ℕ → Option (List F)
  unfolding levinson_loop
  levinson_durbin acf p = levinson_loop p 1 acf (at acf 0) []

  -- The coefficients that stand in when `levinsonDurbin` fails.
  unfoldable pub fallback : ℕ → F → List F
  unfolding replicate
  fallback zero c = []
  fallback (suc p) c = c ∷ replicate p (int_lit 0)

  unfoldable pub coeffs_or : ℕ → F → Option (List F) → List F
  unfolding fallback
  coeffs_or p c none = fallback p c
  coeffs_or p c (some coeffs) = coeffs

  -- It never answers an error.
  unfoldable pub fit_ar : List F → ℕ → List F
  unfolding compute_variance autocorr levinson_durbin coeffs_or
  fit_ar centered p =
      if p == 0
      then []
      else if fl.lt (compute_variance centered) (fl.decimal 1 10)
      then replicate p (int_lit 0)
      else coeffs_or p (fl.decimal 5 1) (levinson_durbin (tabulate (p + 1) 0 (autocorr centered)) p)

  -- The sum of the products of `coeffs` with the values before `t`.
  unfoldable pub ar_part : List F → List F → ℕ → ℕ → F
  unfolding add_up
  ar_part centered coeffs p t =
      add_up (if leb (length coeffs) p then length coeffs else p) 0
        (λ i. fl.mul (at coeffs i) (at centered (t - 1 - i))) (int_lit 0)

  unfoldable pub compute_residuals : List F → List F → ℕ → List F
  unfolding tabulate ar_part
  compute_residuals centered coeffs p =
      tabulate (length centered - p) p (λ t. fl.sub (at centered t) (ar_part centered coeffs p t))

  -- `if math.Abs(c) > 1`
  unfoldable pub damp : F → F
  damp c = if fl.lt (int_lit 1) (fl.abs c) then fl.mul (fl.div c (fl.abs c)) (fl.decimal 9 1) else c

  -- The coefficients, zero beyond the residuals. It never answers an error.
  unfoldable pub fit_ma : List F → ℕ → List F
  unfolding autocorr damp tabulate
  fit_ma [] q = []
  fit_ma (r ∷ rs) q =
      tabulate q 0
        (λ i. damp (if ltb i (length (r ∷ rs)) then autocorr (r ∷ rs) (i + 1) else int_lit 0))

  unfoldable pub residual_std_dev : List F → F
  unfolding add_up
  residual_std_dev residuals =
      let n = length residuals in
      let sum_sq = add_up n 0 (λ i. fl.mul (at residuals i) (at residuals i)) (int_lit 0) in
      if ltb 1 n then fl.sqrt (fl.div sum_sq (int_lit (n - 1))) else int_lit 0
