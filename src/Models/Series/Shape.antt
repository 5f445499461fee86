-- ===== src/Models/Series/Shape.antt =====
-- The lengths of what is fitted to a series.
use kedastral.Base.{
  ℕ, zero, suc, ◌+◌, ◌-◌, ◌≡◌, ◌≤◌, refl, ap, ◌∙◌, inl, inr, Bool-cases, Option, none, some, List,
  [], ◌∷◌, ◌==◌, if◌then◌else◌, length, length-append, arith,
}
use kedastral.Float64.{Float64, int_lit}
use kedastral.Models.Series.{
  replicate, tabulate, last_n, steps, difference, next_row, levinson_loop, levinson_durbin,
  fallback, coeffs_or, fit_ar, compute_residuals, fit_ma, autocorr, compute_variance, reflection,
  at,
}

module _ {ℓ} {A : Type ℓ} where
  pub length-replicate : (n : ℕ) (x : A) → length (replicate n x) ≡ n
  unfolding replicate
  length-replicate zero x = refl
  length-replicate (suc n) x = ap suc (length-replicate n x)

  pub length-tabulate : (n i : ℕ) (f : ℕ → A) → length (tabulate n i f) ≡ n
  unfolding tabulate
  length-tabulate zero i f = refl
  length-tabulate (suc n) i f = ap suc (length-tabulate n (i + 1) f)

  pub length-last_n : (n : ℕ) (xs : List A) → n ≤ length xs → length (last_n n xs) ≡ n
  unfolding last_n
  length-last_n n [] h = omega arith
  length-last_n n (x ∷ xs) h = ground (arith, length-last_n n xs)

module _ {ℓ} {F : Type ℓ} ⦃fl : Float64 F⦄ where
  length-steps : (xs : List F) → length (steps xs) ≡ length xs - 1
  unfolding steps
  length-steps [] = refl
  length-steps (x ∷ []) = refl
  length-steps (x ∷ y ∷ xs) = omega (arith, length-steps (y ∷ xs))

  pub length-difference : (d : ℕ) (xs : List F) → length (difference d xs) ≡ length xs - d
  unfolding difference
  length-difference zero xs = omega arith
  length-difference (suc d) [] = omega arith
  length-difference (suc zero) (x ∷ xs) = length-steps (x ∷ xs)
  length-difference (suc (suc d)) (x ∷ xs) =
      omega (arith, length-difference (suc d) (steps (x ∷ xs)), length-steps (x ∷ xs))

  length-next_row :
      (acf : List F) (k : ℕ) (r : F) (row : List F)
      → length row + 1 ≡ k
      → length (next_row acf k r row) ≡ k
  unfolding next_row
  length-next_row acf k r row e = rw (length-append, length-tabulate) (omega (arith, e))

  levinson_loop-zero :
      (k : ℕ) (acf : List F) (v : F) (row : List F) → levinson_loop 0 k acf v row ≡ some row
  unfolding levinson_loop
  levinson_loop-zero k acf v row = refl

  levinson_loop-suc :
      (rounds k : ℕ) (acf : List F) (v : F) (row : List F)
      → levinson_loop (suc rounds) k acf v row ≡ (
          if fl.eq v (int_lit 0)
          then none
          else if fl.lt
              (fl.mul v
                (fl.sub (int_lit 1) (fl.mul (reflection acf k v row) (reflection acf k v row))))
              (int_lit 0)
          then none
          else levinson_loop rounds
              (k + 1)
              acf
              (fl.mul v
                (fl.sub (int_lit 1) (fl.mul (reflection acf k v row) (reflection acf k v row))))
              (next_row acf k (reflection acf k v row) row))
  unfolding levinson_loop
  levinson_loop-suc rounds k acf v row = refl

  length-levinson_loop :
      (rounds k : ℕ) (acf : List F) (v : F) (row coeffs : List F)
      → length row + 1 ≡ k
      → levinson_loop rounds k acf v row ≡ some coeffs
      → length coeffs ≡ length row + rounds
  length-levinson_loop zero k acf v row coeffs e h = ground (arith, levinson_loop-zero k acf v row)
  length-levinson_loop (suc rounds) k acf v row coeffs e h =
      let r = reflection acf k v row in
      let w = fl.mul v (fl.sub (int_lit 1) (fl.mul r r)) in
      let more = length-next_row acf k r row e in
      elim (Bool-cases (fl.eq v (int_lit 0))) [
        | inl c ↦ ground (arith, rw (levinson_loop-suc rounds k acf v row, c) at h)
        | inr c ↦ elim (Bool-cases (fl.lt w (int_lit 0))) [
          | inl d ↦ ground (arith, rw (levinson_loop-suc rounds k acf v row, c, d) at h)
          | inr d ↦ omega (
            arith,
            more,
            e,
            length-levinson_loop rounds (k + 1) acf w (next_row acf k r row) coeffs
                (omega (arith, more, e)) (rw (levinson_loop-suc rounds k acf v row, c, d) at h),
          )
        ]
      ]

  pub length-coeffs_or :
      (p : ℕ) (c : F) (o : Option (List F))
      → ((coeffs : List F) → o ≡ some coeffs → length coeffs ≡ p)
      → length (coeffs_or p c o) ≡ p
  unfolding coeffs_or fallback
  length-coeffs_or zero c none h = refl
  length-coeffs_or (suc p) c none h = ap suc (length-replicate p (int_lit 0))
  length-coeffs_or p c (some coeffs) h = h coeffs refl

  levinson_durbin_lem :
      (acf : List F) (p : ℕ) → levinson_durbin acf p ≡ levinson_loop p 1 acf (at acf 0) []
  unfolding levinson_durbin
  levinson_durbin_lem acf p = refl

  pub length-levinson_durbin :
      (acf : List F) (p : ℕ) (coeffs : List F)
      → levinson_durbin acf p ≡ some coeffs
      → length coeffs ≡ p
  length-levinson_durbin acf p coeffs h = omega (
    arith,
    length-levinson_loop p 1 acf (at acf 0) [] coeffs refl (rw (levinson_durbin_lem acf p) at h),
  )

  fit_ar_lem :
      (xs : List F) (p : ℕ)
      → fit_ar xs p ≡ (
          if p == 0
          then []
          else if fl.lt (compute_variance xs) (fl.decimal 1 10)
          then replicate p (int_lit 0)
          else coeffs_or p (fl.decimal 5 1) (levinson_durbin (tabulate (p + 1) 0 (autocorr xs)) p))
  unfolding fit_ar
  fit_ar_lem xs p = refl

  pub length-fit_ar : (xs : List F) (p : ℕ) → length (fit_ar xs p) ≡ p
  length-fit_ar xs p = elim (Bool-cases (p == 0)) [
    | inl e ↦ ground (arith, fit_ar_lem xs p)
    | inr e ↦ elim (Bool-cases (fl.lt (compute_variance xs) (fl.decimal 1 10))) [
      | inl d ↦ rw (fit_ar_lem xs p, e, d) (length-replicate p (int_lit 0))
      | inr d ↦
          rw (fit_ar_lem xs p, e, d)
            (length-coeffs_or p (fl.decimal 5 1) _
              (length-levinson_durbin (tabulate (p + 1) 0 (autocorr xs)) p))
    ]
  ]

  pub length-compute_residuals :
      (xs coeffs : List F) (p : ℕ) → length (compute_residuals xs coeffs p) ≡ length xs - p
  unfolding compute_residuals
  length-compute_residuals xs coeffs p = length-tabulate _ p _

  pub length-fit_ma :
      (residuals : List F) (q : ℕ)
      → length (fit_ma residuals q) ≡ (if length residuals == 0 then 0 else q)
  unfolding fit_ma
  length-fit_ma [] q = ground arith
  length-fit_ma (r ∷ rs) q = length-tabulate q 0 _ ∙ ground arith
