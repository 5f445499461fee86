-- ===== src/Config/Valid.antt =====
-- What a configuration that passed the validation satisfies, and that validating it again changes
-- nothing.
use kedastral.Base.{
  ℕ, suc, ◌*◌, ◌^◌, ◌≡◌, ◌≢◌, ap, ◌∙◌, refl, sym, subst, ◌↔◌, ◌⊎◌, inl, inr, String, true, false,
  Bool-cases, arith, str_eq, eq_iff, if◌then◌else◌,
}
use kedastral.Base.Int.{ℤ, pos, ◌≤ℤ◌, ◌<ℤ◌, leb_ℤ, ltb_ℤ, eqb_ℤ}
use kedastral.Base.Result.{ok, ◌>>=◌, >>=-eq-ok}
use kedastral.Base.Text.{is_workload_name, fails_nonempty, is_workload_name_nonempty}
use kedastral.Float64.{Float64, IsFloat64, int_lit}
use kedastral.Config.Workload.{
  WorkloadConfig, check_names, check_times, check_bounds, check_capacity, check_model, is_model,
  validate_workload,
}

is_model_nonempty : (s : String) → is_model s ≡ true → str_eq s "" ≡ false
unfolding is_model
is_model_nonempty s h = fails_nonempty is_model s refl h

pub record HasNames (name metric adapter : String) : Type 0 where
  pub is_name : is_workload_name name ≡ true
  pub has_metric : metric ≢ ""
  pub has_adapter : adapter ≢ ""

pub record HasTimes (step horizon interval window : ℤ) : Type 0 where
  pub positive_step : pos 0 <ℤ step
  pub within : step ≤ℤ horizon
  pub positive_interval : pos 0 <ℤ interval
  pub positive_window : pos 0 <ℤ window

pub record HasBounds (lo hi : ℤ) : Type 0 where
  pub low : pos 0 ≤ℤ lo
  pub ordered : lo ≤ℤ hi
  pub high : pos 0 <ℤ hi

pub record HasModel (model url : String) : Type 0 where
  pub is_known : is_model model ≡ true
  pub has_url : (model ≢ "byom") ⊎ (url ≢ "")

module _ {ℓ} {F : Type ℓ} where
  abbrev AreNames : WorkloadConfig F → Type 0
  AreNames w = HasNames w.name w.metric w.adapter

  abbrev AreTimes : WorkloadConfig F → Type 0
  AreTimes w = HasTimes w.step w.horizon w.interval w.window

  abbrev AreBounds : WorkloadConfig F → Type 0
  AreBounds w = HasBounds w.min_replicas w.max_replicas

  abbrev IsModel : WorkloadConfig F → Type 0
  IsModel w = HasModel w.model w.byom_url

  check_names-AreNames : (w v : WorkloadConfig F) → check_names w ≡ ok v → (v ≡ w) × AreNames w
  unfolding check_names
  check_names-AreNames w v h = ground (arith, h, eq_iff w.metric "", eq_iff w.adapter "")

  AreNames-check_names : (w : WorkloadConfig F) → AreNames w → check_names w ≡ ok w
  unfolding check_names
  AreNames-check_names w h = ground (
    arith,
    is_workload_name_nonempty w.name h.is_name,
    h.is_name,
    h.has_metric,
    h.has_adapter,
    eq_iff w.metric "",
    eq_iff w.adapter "",
  )

  check_times-AreTimes :
      (w v : WorkloadConfig F)
      → check_times w ≡ ok v
      → (interval window : ℤ) × (v ≡ record w { interval = interval; window = window })
        × AreTimes (record w { interval = interval; window = window })
  unfolding check_times
  check_times-AreTimes w v h = (
    if leb_ℤ w.interval (pos 0) then pos (30 * 10 ^ 9) else w.interval,
    if leb_ℤ w.window (pos 0) then pos (30 * 60 * 10 ^ 9) else w.window,
    ground (arith, h),
    record {
      positive_step = ground (arith, h);
      within = ground (arith, h);
      positive_interval = ground arith;
      positive_window = ground arith;
    },
  )

  AreTimes-check_times : (w : WorkloadConfig F) → AreTimes w → check_times w ≡ ok w
  unfolding check_times
  AreTimes-check_times w h =
      ground (arith, h.positive_step, h.within, h.positive_interval, h.positive_window)

  check_bounds-AreBounds :
      (w v : WorkloadConfig F)
      → check_bounds w ≡ ok v
      → (max : ℤ) × (v ≡ record w { max_replicas = max })
        × AreBounds (record w { max_replicas = max })
  unfolding check_bounds
  check_bounds-AreBounds w v h = (
    if eqb_ℤ w.max_replicas (pos 0) then pos 100 else w.max_replicas,
    ground (arith, h),
    record { low = ground (arith, h); ordered = ground (arith, h); high = ground (arith, h) },
  )

  AreBounds-check_bounds : (w : WorkloadConfig F) → AreBounds w → check_bounds w ≡ ok w
  unfolding check_bounds
  AreBounds-check_bounds w h =
      let low : ltb_ℤ w.min_replicas (pos 0) ≡ false = ground (arith, h.low) in
      let ordered : ltb_ℤ w.max_replicas w.min_replicas ≡ false = ground (arith, h.ordered) in
      let high : eqb_ℤ w.max_replicas (pos 0) ≡ false = ground (arith, h.high) in
      rw (low, ordered, high)

  check_model-IsModel :
      (w v : WorkloadConfig F)
      → check_model w ≡ ok v
      → (model : String) × (v ≡ record w { model = model }) × IsModel (record w { model = model })
  unfolding check_model
  check_model-IsModel w v h =
      let model = if str_eq w.model "" then "baseline" else w.model in
      (
        model,
        ground (arith, h),
        record {
          is_known = ground (arith, h);
          has_url = ground (arith, h, eq_iff model "byom", eq_iff w.byom_url "");
        },
      )

  IsModel-check_model : (w : WorkloadConfig F) → IsModel w → check_model w ≡ ok w
  unfolding check_model
  IsModel-check_model w h =
      rw (is_model_nonempty w.model h.is_known, h.is_known)
        (ground (arith, h.has_url, eq_iff w.model "byom", eq_iff w.byom_url ""))

module _ {ℓ} {F : Type ℓ} ⦃fl : Float64 F⦄ where
  pub record HasCapacity (target headroom up : F) (down : ℤ) : Type 0 where
    pub positive_target : fl.le target (int_lit 0) ≡ false
    pub positive_headroom : fl.le headroom (int_lit 0) ≡ false
    pub positive_up : fl.le up (int_lit 0) ≡ false
    pub low : pos 0 ≤ℤ down
    pub high : down ≤ℤ pos 100

  abbrev IsCapacity : WorkloadConfig F → Type 0
  IsCapacity w =
      HasCapacity w.target_per_pod w.headroom w.up_max_factor_per_step w.down_max_percent_per_step

  -- A configuration as the forecaster needs it: a name that the routes accept, a metric and an
  -- adapter, positive times with the step within the horizon, replica bounds with a positive maximum,
  -- no float that compares as 0 or less, and a known model, with a URL for `byom`.
  pub record IsValid (w : WorkloadConfig F) : Type 0 where
    pub names : HasNames w.name w.metric w.adapter
    pub times : HasTimes w.step w.horizon w.interval w.window
    pub bounds : HasBounds w.min_replicas w.max_replicas
    pub capacity :
        HasCapacity w.target_per_pod w.headroom w.up_max_factor_per_step w.down_max_percent_per_step
    pub model : HasModel w.model w.byom_url

  IsCapacity-check_capacity : (w : WorkloadConfig F) → IsCapacity w → check_capacity w ≡ ok w
  unfolding check_capacity
  IsCapacity-check_capacity w h =
      let low : ltb_ℤ w.down_max_percent_per_step (pos 0) ≡ false = ground (arith, h.low) in
      let high : ltb_ℤ (pos 100) w.down_max_percent_per_step ≡ false = ground (arith, h.high) in
      rw (h.positive_target, low, high, h.positive_headroom, h.positive_up)

  IsValid-validate_workload : (w : WorkloadConfig F) → IsValid w → validate_workload w ≡ ok w
  unfolding validate_workload
  IsValid-validate_workload w h =
      rw
        (
          AreNames-check_names w h.names,
          AreTimes-check_times w h.times,
          AreBounds-check_bounds w h.bounds,
          IsCapacity-check_capacity w h.capacity,
          IsModel-check_model w h.model,
        )
        refl

module _ {ℓ} {F : Type ℓ} ⦃fl : Float64 F⦄ (laws : IsFloat64 F) where
  positive : (n : ℕ) → fl.le (int_lit (suc n)) (int_lit 0) ≡ false
  positive n = ground (
    arith,
    laws.of_int_pos n,
    laws.lt-eq-not-le (int_lit 0) (int_lit (suc n)) (number 0) (number (suc n)),
  )
    where
      number : (m : ℕ) → fl.le (int_lit m) (int_lit m) ≡ true
      number m = laws.of_int_mono (pos m) (pos m) (omega arith)

  check_capacity-IsCapacity :
      (w v : WorkloadConfig F)
      → check_capacity w ≡ ok v
      → (headroom up : F) × (v ≡ record w { headroom = headroom; up_max_factor_per_step = up })
        × IsCapacity (record w { headroom = headroom; up_max_factor_per_step = up })
  unfolding check_capacity
  check_capacity-IsCapacity w v h =
      let one : fl.decimal 10 1 ≡ int_lit 1 = laws.decimal_int 1 (omega arith) in
      let two : fl.decimal 20 1 ≡ int_lit 2 = laws.decimal_int 2 (omega arith) in
      (
        if fl.le w.headroom (int_lit 0) then fl.decimal 10 1 else w.headroom,
        if fl.le w.up_max_factor_per_step (int_lit 0)
            then fl.decimal 20 1
            else w.up_max_factor_per_step,
        ground (arith, h),
        record {
          positive_target = ground (arith, h);
          positive_headroom = raised w.headroom (fl.decimal 10 1) (rw one (positive 0));
          positive_up = raised w.up_max_factor_per_step (fl.decimal 20 1) (rw two (positive 1));
          low = ground (arith, h);
          high = ground (arith, h);
        },
      )
    where
      raised :
          (x y : F)
          → fl.le y (int_lit 0) ≡ false
          → fl.le (if fl.le x (int_lit 0) then y else x) (int_lit 0) ≡ false
      raised x y e = elim (Bool-cases (fl.le x (int_lit 0))) [ inl k ↦ rw k e | inr k ↦ rw (k, k) ]

  -- What `validateWorkload` returns without an error is valid: the routes accept its name, it has a
  -- metric and an adapter, its times are positive and the step is within the horizon, its replica
  -- bounds are ordered with a positive maximum, no float of it compares as 0 or less, the percentage is
  -- one, and the model is known, with a URL for `byom`.
  pub validate_workload-IsValid : (w v : WorkloadConfig F) → validate_workload w ≡ ok v → IsValid v
  unfolding validate_workload
  validate_workload-IsValid w v h =
      let (w4, h4, e4) =
        >>=-eq-ok (check_names w >>= check_times >>= check_bounds >>= check_capacity) check_model v
          h in
      let (w3, h3, e3) =
        >>=-eq-ok (check_names w >>= check_times >>= check_bounds) check_capacity w4 h4 in
      let (w2, h2, e2) = >>=-eq-ok (check_names w >>= check_times) check_bounds w3 h3 in
      let (w1, e0, e1) = >>=-eq-ok (check_names w) check_times w2 h2 in
      let (p0, names) = check_names-AreNames w w1 e0 in
      let (_, _, p1, times) = check_times-AreTimes w1 w2 e1 in
      let (_, p2, bounds) = check_bounds-AreBounds w2 w3 e2 in
      let (_, _, p3, capacity) = check_capacity-IsCapacity w3 w4 e3 in
      let (_, p4, model) = check_model-IsModel w4 v e4 in
      let names3 =
        subst AreNames (sym p2) (subst AreNames (sym p1) (subst AreNames (sym p0) names)) in
      let times3 = subst AreTimes (sym p2) (subst AreTimes (sym p1) times) in
      let bounds3 = subst AreBounds (sym p2) bounds in
      subst IsValid (sym p4) (record {
        names = subst AreNames (sym p3) names3;
        times = subst AreTimes (sym p3) times3;
        bounds = subst AreBounds (sym p3) bounds3;
        capacity = subst IsCapacity (sym p3) capacity;
        model = model;
      })

  pub validate_workload_name :
      (w v : WorkloadConfig F) → validate_workload w ≡ ok v → v.name ≡ w.name
  unfolding validate_workload
  validate_workload_name w v h =
      let (w4, h4, e4) =
        >>=-eq-ok (check_names w >>= check_times >>= check_bounds >>= check_capacity) check_model v
          h in
      let (w3, h3, e3) =
        >>=-eq-ok (check_names w >>= check_times >>= check_bounds) check_capacity w4 h4 in
      let (w2, h2, e2) = >>=-eq-ok (check_names w >>= check_times) check_bounds w3 h3 in
      let (w1, e0, e1) = >>=-eq-ok (check_names w) check_times w2 h2 in
      let name = λ (x : WorkloadConfig F). x.name in
      ap name (check_model-IsModel w4 v e4).1
      ∙ ap name (check_capacity-IsCapacity w3 w4 e3).2
      ∙ ap name (check_bounds-AreBounds w2 w3 e2).1
      ∙ ap name (check_times-AreTimes w1 w2 e1).2
      ∙ ap name (check_names-AreNames w w1 e0).0

  -- A configuration is valid if and only if `validateWorkload` accepts it without changing it, so
  -- that validating twice is the same as validating once.
  pub validate_workload_iff : (w : WorkloadConfig F) → (validate_workload w ≡ ok w) ↔ IsValid w
  validate_workload_iff w = (validate_workload-IsValid w w, IsValid-validate_workload w)
