-- ===== src/Scaler/Tests.antt =====
-- Runs of the scaler against a forecaster that answers one snapshot.
use kedastral.Base.{
  ℕ, ◌*◌, ◌^◌, ◌≤◌, ◌≡◌, ◌↔◌, refl, true, none, some, List, [], ◌∷◌, get_elem?, arith,
}
use kedastral.Base.Int.{ℤ, pos, ◌≤ℤ◌, ◌*ℤ◌, wrap64, quot}
use kedastral.Base.Time.{time_sub, minute}
use kedastral.Base.Result.{ok}
use kedastral.Storage.Snapshot.{Snapshot}
use kedastral.Scaler.{
  ScaledObjectRef, Http, Event, get_workload, is_active, get_metrics, select_from, select_replicas,
}
use kedastral.Scaler.Window.{select_from-largest}
use kedastral.Scaler.Calls.{Answers, is_active_iff, get_metrics_iff}

abbrev snapshot : Snapshot ℤ
snapshot = record {
  workload = "api";
  metric = "rps";
  generated_at = pos 1000;
  step_seconds = pos 60;
  horizon_seconds = pos 240;
  values = [];
  desired_replicas = pos 3 ∷ pos 7 ∷ pos 5 ∷ pos 9 ∷ [];
  quantiles = none;
}

-- A forecaster that knows one workload, and whose bodies are snapshots.
abbrev forecaster : Http ℤ (Snapshot ℤ)
forecaster = record {
  is_request = λ url. true;
  answer = λ url. some (200, snapshot);
  decode = some;
}

abbrev ref : ScaledObjectRef
ref = record { name = "scaled"; namespace = "prod"; scaler_metadata = ("workload", "api") ∷ [] }

-- 2 minutes ahead: the entries at 0, 1 and 2 minutes count, the 9 at 3 minutes does not
selected : select_replicas (pos (120 * 10 ^ 9)) snapshot ≡ some (pos 7)
unfolding select_replicas wrap64 ◌*ℤ◌ quot
selected = refl

-- a step of 0 seconds, which a configured step below a second becomes
zero_step : select_from (pos (120 * 10 ^ 9)) (pos 0) (pos 3 ∷ []) ≡ none
unfolding select_from wrap64 ◌*ℤ◌
zero_step = refl

select_from-largest_example :
    (best : ℤ) × (select_from (pos (120 * 10 ^ 9)) (pos 60) (pos 3 ∷ pos 7 ∷ pos 5 ∷ pos 9 ∷ [])
      ≡ some best)
    × ((i : ℕ) (x : ℤ)
        → get_elem? (pos 3 ∷ pos 7 ∷ pos 5 ∷ pos 9 ∷ []) i ≡ some x
        → i * (60 * 10 ^ 9) ≤ 120 * 10 ^ 9
        → x ≤ℤ best)
    × ((j : ℕ) × (get_elem? (pos 3 ∷ pos 7 ∷ pos 5 ∷ pos 9 ∷ []) j ≡ some best)
        × (j * (60 * 10 ^ 9) ≤ 120 * 10 ^ 9))
select_from-largest_example =
    select_from-largest (120 * 10 ^ 9) 60 (pos 3) (pos 7 ∷ pos 5 ∷ pos 9 ∷ []) (omega arith)
      (omega arith) (omega arith)

is_active_iff_example : ((is_active forecaster "http://f" true minute (pos 5000) ref).0 ≡ true) ↔ (
    (s : Snapshot ℤ) × Answers forecaster "http://f" (get_workload ref) s
    × (time_sub (pos 5000) s.generated_at ≤ℤ minute *ℤ pos 2))
unfolding ◌*ℤ◌
is_active_iff_example =
    is_active_iff forecaster "http://f" true minute (pos 5000) ref (omega arith, omega arith)

get_metrics_iff_example :
    ((events : List Event) × (get_metrics forecaster "http://f" true (pos (120 * 10 ^ 9)) ref
        ≡ some (ok (pos 7), events)))
    ↔ ((s : Snapshot ℤ) × Answers forecaster "http://f" (get_workload ref) s
        × (select_replicas (pos (120 * 10 ^ 9)) s ≡ some (pos 7)))
get_metrics_iff_example =
    get_metrics_iff forecaster "http://f" true (pos (120 * 10 ^ 9)) (pos 7) ref
