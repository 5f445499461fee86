-- ===== src/Models/Baseline.antt =====
-- pkg/models/baseline.go: `BaselineModel`, its patterns by minute and hour, and its forecast from the
-- trend and the patterns. A map keyed by minutes or hours is an association list, and `visit` and
-- `visit_values` give the order in which `range` takes its entries.
pub mod Patterns
pub mod Predict
use kedastral.Base.{
  ℕ, zero, suc, ◌+◌, ◌-◌, ◌/◌, ◌==◌, String, Bool, true, false, Option, none, some, List, [], ◌∷◌,
  ◌++◌, ltb, leb, length, take, drop, if◌then◌else◌, ◌||◌, ◌&&◌,
}
use kedastral.Base.Int.{ℤ, pos, negsuc, ltb_ℤ, leb_ℤ, eqb_ℤ, ◌+ℤ◌, ◌-ℤ◌, ◌*ℤ◌, quot, wrap64}
use kedastral.Base.Buckets.{Buckets, find_bucket, set_bucket}
use kedastral.Base.Dict.{lookup}
use kedastral.Base.Result.{Result, ok, err}
use kedastral.Float64.{Float64, int_lit}
use kedastral.Features.{FeatureFrame}
use kedastral.Forecaster.Tick.{Forecast}
use kedastral.Models.Series.{tabulate, last_n}
use kedastral.Models.Outlook.{ModelError, no_rows, no_values, panics, num_steps, last_or_zero}

pub record SeasonalPattern {ℓ} (F : Type ℓ) : Type ℓ where
  pub mean : F
  pub max : F
  pub min : F
  pub count : ℕ
  pub stddev : F

module _ {ℓ} {A : Type ℓ} where
  -- `bs[k]` of slices, nil when there is none
  unfoldable pub bucket_list : ℤ → Buckets (List A) → List A
  unfolding find_bucket
  bucket_list k bs = elim (find_bucket k bs) [ none ↦ [] | some xs ↦ xs ]

  unfoldable pub join_buckets : Buckets (List A) → List A
  join_buckets [] = []
  join_buckets ((j, xs) ∷ bs) = xs ++ join_buckets bs

pub record BaselineModel {ℓ} (F : Type ℓ) : Type ℓ where
  pub metric : String
  pub step_sec : ℤ
  pub horizon : ℤ
  pub minute_seasonality : Buckets (SeasonalPattern F)
  pub hour_seasonality : Buckets (SeasonalPattern F)
  pub residual_std_dev : F

module _ {ℓ} {F : Type ℓ} ⦃fl : Float64 F⦄ where
  unfoldable pub new_baseline : String → ℤ → ℤ → BaselineModel F
  new_baseline metric step_sec horizon = record {
    metric = metric;
    step_sec = step_sec;
    horizon = horizon;
    minute_seasonality = [];
    hour_seasonality = [];
    residual_std_dev = int_lit 0;
  }

  -- The loops of computeSeasonalPattern.
  unfoldable pub add_all : List F → F → F
  add_all [] acc = acc
  add_all (v ∷ vs) acc = add_all vs (fl.add acc v)

  unfoldable pub least : List F → F → F
  least [] best = best
  least (v ∷ vs) best = least vs (if fl.lt v best then v else best)

  unfoldable pub greatest : List F → F → F
  greatest [] best = best
  greatest (v ∷ vs) best = greatest vs (if fl.lt best v then v else best)

  unfoldable pub add_squares : F → List F → F → F
  add_squares mean [] acc = acc
  add_squares mean (v ∷ vs) acc =
      add_squares mean vs (fl.add acc (fl.mul (fl.sub v mean) (fl.sub v mean)))

  -- `none` is the nil pattern.
  unfoldable pub compute_seasonal_pattern : List F → Option (SeasonalPattern F)
  unfolding add_all least greatest add_squares
  compute_seasonal_pattern [] = none
  compute_seasonal_pattern (x ∷ xs) =
      let n = length (x ∷ xs) in
      let mean = fl.div (add_all (x ∷ xs) (int_lit 0)) (int_lit n) in
      let variance = fl.div (add_squares mean (x ∷ xs) (int_lit 0)) (int_lit (n - 1)) in
      some record {
        mean = mean;
        max = greatest (x ∷ xs) x;
        min = least (x ∷ xs) x;
        count = n;
        stddev = if ltb 1 n then fl.sqrt variance else int_lit 0;
      }

  -- The values by the integer in the column `key`, if that is in `[0, limit)`.
  unfoldable pub collect_buckets : String → ℕ → FeatureFrame F → Buckets (List F) → Buckets (List F)
  unfolding set_bucket bucket_list
  collect_buckets key limit [] bs = bs
  collect_buckets key limit (row ∷ rows) bs = elim (lookup "value" row) [
    | none ↦ collect_buckets key limit rows bs
    | some v ↦ elim (lookup key row) [
      | none ↦ collect_buckets key limit rows bs
      | some x ↦
          let k = fl.trunc x in
          collect_buckets key limit rows (
            if leb_ℤ (pos 0) k && ltb_ℤ k (pos limit)
            then set_bucket k (bucket_list k bs ++ v ∷ []) bs
            else bs)
    ]
  ]

  -- One pattern, when there are two values for it.
  unfoldable pub learn_bucket :
      ℕ → Buckets (List F) → Buckets (SeasonalPattern F) → Buckets (SeasonalPattern F)
  unfolding compute_seasonal_pattern set_bucket bucket_list
  learn_bucket i bs patterns = elim (compute_seasonal_pattern (bucket_list (pos i) bs)) [
    | none ↦ patterns
    | some p ↦
        if leb 2 (length (bucket_list (pos i) bs)) then set_bucket (pos i) p patterns else patterns
  ]

  -- The loop over the minutes or hours from `i` on.
  unfoldable pub learn :
      ℕ → ℕ → Buckets (List F) → Buckets (SeasonalPattern F) → Buckets (SeasonalPattern F)
  unfolding learn_bucket
  learn zero i bs patterns = patterns
  learn (suc rounds) i bs patterns = learn rounds (i + 1) bs (learn_bucket i bs patterns)

  -- `totalStdDev` and `patternCount`
  unfoldable pub add_deviations : Buckets (SeasonalPattern F) → F → ℕ → F × ℕ
  add_deviations [] total count = (total, count)
  add_deviations ((k, p) ∷ ps) total count =
      if fl.lt (int_lit 0) p.stddev
      then add_deviations ps (fl.add total p.stddev) (count + 1)
      else add_deviations ps total count

  -- The deviation of all the values, or the one before when there are none.
  unfoldable pub overall_std_dev : F → List F → F
  unfolding compute_seasonal_pattern
  overall_std_dev old values = elim (compute_seasonal_pattern values) [
    | none ↦ old
    | some p ↦ p.stddev
  ]

  -- `Train` answers no error.
  unfoldable pub baseline_train :
      (Buckets (SeasonalPattern F) → Buckets (SeasonalPattern F))
      → (Buckets (List F) → Buckets (List F))
      → FeatureFrame F
      → BaselineModel F
      → BaselineModel F
  unfolding collect_buckets learn add_deviations overall_std_dev join_buckets
  baseline_train visit visit_values [] m = m
  baseline_train visit visit_values (row ∷ rows) m =
      let minute_values = collect_buckets "minute" 60 (row ∷ rows) [] in
      let hour_values = collect_buckets "hour" 24 (row ∷ rows) [] in
      let minutes = learn 60 0 minute_values m.minute_seasonality in
      let hours = learn 24 0 hour_values m.hour_seasonality in
      let (total, count) = add_deviations (visit minutes ++ visit hours) (int_lit 0) 0 in
      let all_values =
        join_buckets (visit_values minute_values) ++ join_buckets (visit_values hour_values) in
      record m {
        minute_seasonality = minutes;
        hour_seasonality = hours;
        residual_std_dev =
            if ltb 0 count
            then fl.div total (int_lit count)
            else overall_std_dev m.residual_std_dev all_values;
      }
