-- ===== src/Models/Baseline/Patterns.antt =====
-- What training the baseline keeps.
use kedastral.Base.{
  ℕ, zero, suc, ◌+◌, ◌≤◌, ◌<◌, ◌≡◌, inl, inr, Bool-cases, Option-cases, some, List, [], ◌∷◌, All,
  length, leb, arith,
}
use kedastral.Base.Int.{ℤ, pos, eqb_ℤ, ◌<ℤ◌, ◌≤ℤ◌}
use kedastral.Float64.{Float64}
use kedastral.Features.{FeatureFrame}
use kedastral.Base.Buckets.{Buckets, set_bucket}
use kedastral.Models.Baseline.{
  SeasonalPattern, BaselineModel, bucket_list, compute_seasonal_pattern, learn_bucket, learn,
  baseline_train, collect_buckets,
}

module _ {ℓ} {F : Type ℓ} ⦃fl : Float64 F⦄ where
  -- A pattern of at least two observations, for a minute or hour in its range.
  abbrev pub IsPattern : ℕ → ℤ × SeasonalPattern F → Type 0
  IsPattern limit e = (pos 0 ≤ℤ e.0) × (e.0 <ℤ pos limit) × (2 ≤ e.1.count)

  abbrev pub IsLearned : BaselineModel F → Type 0
  IsLearned m = All (IsPattern 60) m.minute_seasonality × All (IsPattern 24) m.hour_seasonality

  set_bucket-All :
      (limit : ℕ) (k : ℤ) (p : SeasonalPattern F) (bs : Buckets (SeasonalPattern F))
      → IsPattern limit (k, p)
      → All (IsPattern limit) bs
      → All (IsPattern limit) (set_bucket k p bs)
  unfolding set_bucket
  set_bucket-All limit k p [] h hs = (h, tt)
  set_bucket-All limit k p ((j, q) ∷ bs) h hs = elim (Bool-cases (eqb_ℤ j k)) [
    | inl e ↦ rw e (h, hs.1)
    | inr e ↦ rw e (hs.0, set_bucket-All limit k p bs h hs.1)
  ]

  count-compute_seasonal_pattern :
      (xs : List F) (p : SeasonalPattern F)
      → compute_seasonal_pattern xs ≡ some p
      → p.count ≡ length xs
  unfolding compute_seasonal_pattern
  count-compute_seasonal_pattern [] p h = absurd (cc h)
  count-compute_seasonal_pattern (x ∷ xs) p h = ground (arith, h)

  learn_bucket-All :
      (limit i : ℕ) (bs : Buckets (List F)) (ps : Buckets (SeasonalPattern F))
      → i < limit
      → All (IsPattern limit) ps
      → All (IsPattern limit) (learn_bucket i bs ps)
  unfolding learn_bucket
  learn_bucket-All limit i bs ps h hs =
      elim (Option-cases (compute_seasonal_pattern (bucket_list (pos i) bs))) [
        | inl e ↦ rw (learn_bucket, e) hs
        | inr (p, e) ↦ elim (Bool-cases (leb 2 (length (bucket_list (pos i) bs)))) [
          | inl c ↦
              rw (learn_bucket, e, c)
                (set_bucket-All limit (pos i) p ps
                  (
                    omega arith,
                    omega (arith, h),
                    ground (arith, c, count-compute_seasonal_pattern (bucket_list (pos i) bs) p e),
                  )
                  hs)
          | inr c ↦ rw (learn_bucket, e, c) hs
        ]
      ]

  learn-All :
      (limit rounds i : ℕ) (bs : Buckets (List F)) (ps : Buckets (SeasonalPattern F))
      → i + rounds ≤ limit
      → All (IsPattern limit) ps
      → All (IsPattern limit) (learn rounds i bs ps)
  unfolding learn
  learn-All limit zero i bs ps h hs = hs
  learn-All limit (suc rounds) i bs ps h hs =
      learn-All limit rounds (i + 1) bs (learn_bucket i bs ps) (omega (arith, h))
        (learn_bucket-All limit i bs ps (omega (arith, h)) hs)

  -- Training keeps that each pattern is of at least two observations and stands under a minute below 60
  -- or an hour below 24, whatever the order in which maps are visited.
  pub baseline_train-IsLearned :
      (visit : Buckets (SeasonalPattern F) → Buckets (SeasonalPattern F))
      (visit_values : Buckets (List F) → Buckets (List F)) (history : FeatureFrame F)
      (m : BaselineModel F)
      → IsLearned m
      → IsLearned (baseline_train visit visit_values history m)
  unfolding baseline_train
  baseline_train-IsLearned visit visit_values [] m h = h
  baseline_train-IsLearned visit visit_values (row ∷ rows) m h = (
    learn-All 60 60 0 (collect_buckets "minute" 60 (row ∷ rows) []) m.minute_seasonality
        (omega arith) h.0,
    learn-All 24 24 0 (collect_buckets "hour" 24 (row ∷ rows) []) m.hour_seasonality (omega arith)
        h.1,
  )
