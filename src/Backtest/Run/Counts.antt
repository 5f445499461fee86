-- ===== src/Backtest/Run/Counts.antt =====
-- The windows of a walk, and what it keeps of them.
use Prim.Native.Nat.{min}
use native.Mathlib.Nat.{div-eq-sub-div, div-eq_of_lt}
use kedastral.Base.{
  ℕ, zero, suc, ◌+◌, ◌-◌, ◌/◌, ◌≤◌, ◌<◌, ◌^◌, ◌==◌, ◌≡◌, ◌≢◌, refl, subst, inl, inr, Bool-cases,
  Option-cases, true, ltb, Option, some, List, map, leb, length, take, drop, length-append,
  length-take, length-map, if◌then◌else◌, arith,
}
use kedastral.Base.Int.{ℤ}
use kedastral.Base.Result.{Result-cases}
use kedastral.Float64.{Float64}
use kedastral.Capacity.Planner.{Policy, to_replicas}
use kedastral.Features.{Calendar, FeatureFrame, build_features}
use kedastral.Forecaster.Tick.{Forecast, Called, answered, failed, panicked}
use kedastral.Backtest.Series.{Series}
use kedastral.Backtest.Run.{
  Factory, Tally, skip_window, score_window, judge_window, needed_replicas, history_data_frame,
  call_model, walk_step, walk,
}

-- How many evaluation points lie from `i` on.
unfoldable pub rounds_left : ℕ → ℕ → ℕ → ℕ → ℕ
rounds_left n horizon stride i = if leb (i + horizon) n then (n - horizon - i) / stride + 1 else 0

rounds_left_done : (n horizon stride i : ℕ) → n < i + horizon → rounds_left n horizon stride i ≡ 0
unfolding rounds_left
rounds_left_done n horizon stride i h = ground (arith, h)

rounds_left-more :
    (n horizon stride i : ℕ)
    → 1 ≤ stride
    → i + horizon ≤ n
    → rounds_left n horizon stride i ≡ rounds_left n horizon stride (i + stride) + 1
unfolding rounds_left
rounds_left-more n horizon stride i hs h = elim (Bool-cases (leb (i + stride + horizon) n)) [
  | inl e ↦
      let again = div-eq-sub-div {m = stride} {n = n - horizon - i} hs (ground (arith, e)) in
      let same : n - horizon - i - stride ≡ n - horizon - (i + stride) = omega arith in
      let here : leb (i + horizon) n ≡ true = ground (arith, h) in rw (e, here, again, same) refl
  | inr e ↦
      let last = div-eq_of_lt {n = n - horizon - i} {m = stride} (ground (arith, e, h)) in
      let here : leb (i + horizon) n ≡ true = ground (arith, h) in rw (e, here, last) refl
]

some_inj {ℓ} : {A : Type ℓ} (x y : A) → some x ≡ some y → x ≡ y
some_inj x y h = cc h

module _ {ℓ} {F : Type ℓ} where
  -- The lists of a tally are as long as each other, two by two.
  abbrev pub IsPaired : Tally F → Type 0
  IsPaired t = (length t.predicted ≡ length t.actual) × (length t.planned ≡ length t.needed)

  -- One window more, and still paired.
  abbrev pub IsRound : Tally F → Tally F → Type 0
  IsRound t t' = (t'.windows + t'.skipped ≡ t.windows + t.skipped + 1) × IsPaired t'

  -- `n` windows more, and still paired.
  abbrev pub HasRounds : ℕ → Tally F → Tally F → Type 0
  HasRounds n t t' = (t'.windows + t'.skipped ≡ t.windows + t.skipped + n) × IsPaired t'

  add_round :
      (m n : ℕ) (t next last : Tally F)
      → IsRound t next
      → HasRounds m next last
      → n ≡ m + 1
      → HasRounds n t last
  add_round m n t next last h k e = (omega (arith, h.0, k.0, e), k.1)

  skip_window-IsRound : (t : Tally F) → IsPaired t → IsRound t (skip_window t)
  unfolding skip_window
  skip_window-IsRound t h = (omega arith, h)

module _ {ℓ} {F : Type ℓ} ⦃fl : Float64 F⦄ where
  score_window-IsRound :
      (policy : Policy F) (step_sec : ℤ) (future : List F) (fc : Forecast F) (t : Tally F)
      → IsPaired t
      → IsRound t (score_window policy step_sec future fc t)
  unfolding score_window
  score_window-IsRound policy step_sec future fc t h =
      let replicas = to_replicas t.prev_replicas fc.values step_sec policy fc.quantiles in
      let count = min (length fc.values) (length future) in
      (
        omega arith,
        (
          omega (
            arith,
            h.0,
            length-append t.predicted (take count fc.values),
            length-append t.actual (take count future),
            length-take count fc.values,
            length-take count future,
          ),
          omega (
            arith,
            h.1,
            length-append t.planned (take count replicas),
            length-append t.needed
                (map (λ v. needed_replicas v policy) (take (min count (length replicas)) future)),
            length-map (λ v. needed_replicas v policy) (take (min count (length replicas)) future),
            length-take count replicas,
            length-take (min count (length replicas)) future,
          ),
        ),
      )

  -- A round that does not panic.
  abbrev pub IsRoundResult : Tally F → Option (Tally F) → Type ℓ
  IsRoundResult t o = (t' : Tally F) → o ≡ some t' → IsRound t t'

  judge_window-IsRound :
      (policy : Policy F) (step_sec : ℤ) (future : List F) (o : Called (Forecast F)) (t : Tally F)
      → IsPaired t
      → IsRoundResult t (judge_window policy step_sec future o t)
  unfolding judge_window
  judge_window-IsRound policy step_sec future failed t h t' e =
      subst (IsRound t) (some_inj (skip_window t) t' e) (skip_window-IsRound t h)
  judge_window-IsRound policy step_sec future panicked t h t' e = absurd (cc e)
  judge_window-IsRound policy step_sec future (answered fc) t h t' e =
      elim (Bool-cases (length fc.values == 0)) [
        | inl d ↦
            subst (IsRound t) (some_inj (skip_window t) t' (rw d at e)) (skip_window-IsRound t h)
        | inr d ↦
            subst (IsRound t) (some_inj (score_window policy step_sec future fc t) t' (rw d at e))
              (score_window-IsRound policy step_sec future fc t h)
      ]

  judge_window-answers :
      (policy : Policy F) (step_sec : ℤ) (future : List F) (o : Called (Forecast F)) (t : Tally F)
      → o ≢ panicked
      → (t' : Tally F) × (judge_window policy step_sec future o t ≡ some t')
  unfolding judge_window
  judge_window-answers policy step_sec future failed t h = (_, refl)
  judge_window-answers policy step_sec future panicked t h = absurd (h refl)
  judge_window-answers policy step_sec future (answered fc) t h = (_, refl)

-- No call of the model panics, whatever features it is given.
pub record IsSafe {ℓ μ} {F : Type ℓ} {M : Type μ} (factory : Factory F M) : Type (ℓ ⊔ μ) where
  pub constructs : (m : M) × (factory.fresh ≡ some m)
  pub calls : (frame : FeatureFrame F) → call_model factory frame ≢ panicked

module _ {ℓ κ μ} {F : Type ℓ} {T : Type κ} {M : Type μ} ⦃fl : Float64 F⦄
    (calendar : Calendar T) where
  walk_step-IsRound :
      (factory : Factory F M) (policy : Policy F) (step_sec : ℤ) (window horizon : ℕ)
      (series : Series T F) (i : ℕ) (t : Tally F)
      → IsPaired t
      → IsRoundResult t (walk_step calendar factory policy step_sec window horizon series i t)
  unfolding walk_step
  walk_step-IsRound factory policy step_sec window horizon series i t h t' at =
      elim (Result-cases (build_features calendar (history_data_frame series (i - window) i))) [
        | inl (frame, e) ↦
            judge_window-IsRound policy step_sec
              (map (λ point. point.1) (take horizon (drop i series))) (call_model factory frame) t h
              t' (rw (walk_step, e) at at)
        | inr (e, q) ↦
            subst (IsRound t) (some_inj (skip_window t) t' (rw (walk_step, q) at at))
              (skip_window-IsRound t h)
      ]

  walk_step-IsSafe :
      (factory : Factory F M) (policy : Policy F) (step_sec : ℤ) (window horizon : ℕ)
      (series : Series T F) (i : ℕ) (t : Tally F)
      → IsSafe factory
      → (t' : Tally F) × (walk_step calendar factory policy step_sec window horizon series i t
          ≡ some t')
  unfolding walk_step
  walk_step-IsSafe factory policy step_sec window horizon series i t safe =
      elim (Result-cases (build_features calendar (history_data_frame series (i - window) i))) [
        | inl (frame, e) ↦
            rw (walk_step, e)
              (judge_window-answers policy step_sec
                (map (λ point. point.1) (take horizon (drop i series))) (call_model factory frame) t
                (safe.calls frame))
        | inr (e, q) ↦ rw (walk_step, q) (_, refl)
      ]

  -- From enough fuel on a walk that does not panic counts every evaluation point once, as a window or as
  -- skipped.
  pub walk-rounds_left :
      (fuel : ℕ) (factory : Factory F M) (policy : Policy F) (step_sec : ℤ)
      (window horizon stride : ℕ) (series : Series T F) (i : ℕ) (t last : Tally F)
      → 1 ≤ stride
      → 1 ≤ horizon
      → length series ≤ i + fuel
      → IsPaired t
      → walk calendar fuel factory policy step_sec window horizon stride series i t ≡ some last
      → HasRounds (rounds_left (length series) horizon stride i) t last
  unfolding walk
  walk-rounds_left zero factory policy step_sec window horizon stride series i t last hs hh hf h
        at =
      subst (HasRounds (rounds_left (length series) horizon stride i) t) (some_inj t last at) (
        rw (rounds_left_done (length series) horizon stride i (omega (arith, hh, hf)))
            (omega arith),
        h,
      )
  walk-rounds_left (suc fuel) factory policy step_sec window horizon stride series i t last hs hh hf
        h at =
      elim (Bool-cases (leb (i + horizon) (length series))) [
        | inl e ↦
            elim (Option-cases
              (walk_step calendar factory policy step_sec window horizon series i t)) [
                | inl q ↦ absurd (cc (rw (walk, e, q) at at))
                | inr (next, q) ↦ elim (Bool-cases (ltb (i + stride + horizon) (2 ^ 63))) [
                  | inr d ↦ absurd (cc (rw (walk, e, q, d) at at))
                  | inl d ↦
                      let (count, paired) =
                        walk_step-IsRound factory policy step_sec window horizon series i t h next
                          q in
                      let counts =
                        walk-rounds_left fuel factory policy step_sec window horizon stride series
                          (i + stride) next last hs hh (omega (arith, hf, hs)) paired
                          (rw (walk, e, q, d) at at) in
                      let more =
                        rounds_left-more (length series) horizon stride i hs (ground (arith, e)) in
                      add_round (rounds_left (length series) horizon stride (i + stride))
                        (rounds_left (length series) horizon stride i) t next last (count, paired)
                        counts more
                ]
              ]
        | inr e ↦
            subst (HasRounds (rounds_left (length series) horizon stride i) t)
              (some_inj t last (rw (walk, e) at at))
              (
                rw (rounds_left_done (length series) horizon stride i (ground (arith, e)))
                    (omega arith),
                h,
              )
      ]

  -- With a model that does not panic and a stride that stays in 64 bits a walk does not panic.
  pub walk-IsSafe :
      (fuel : ℕ) (factory : Factory F M) (policy : Policy F) (step_sec : ℤ)
      (window horizon stride : ℕ) (series : Series T F) (i : ℕ) (t : Tally F)
      → IsSafe factory
      → length series + stride < 2 ^ 63
      → (last : Tally F) × (walk calendar fuel factory policy step_sec window horizon stride series
            i t
          ≡ some last)
  unfolding walk
  walk-IsSafe zero factory policy step_sec window horizon stride series i t safe hb = (t, refl)
  walk-IsSafe (suc fuel) factory policy step_sec window horizon stride series i t safe hb =
      elim (Bool-cases (leb (i + horizon) (length series))) [
        | inl e ↦
            let (next, q) =
              walk_step-IsSafe factory policy step_sec window horizon series i t safe in
            let d : ltb (i + stride + horizon) (2 ^ 63) ≡ true = ground (arith, e, hb) in
            rw (walk, e, q, d)
              (walk-IsSafe fuel factory policy step_sec window horizon stride series (i + stride)
                next safe hb)
        | inr e ↦ rw (walk, e) (t, refl)
      ]
