-- ===== src/Scaler/Window.antt =====
-- `selectReplicasAtLeadTime` is the largest planned count over the lead time.
use native.Mathlib.Nat.{le-div_iff_mul-le, div-le_self}
use kedastral.Base.{
  ℕ, zero, suc, ◌*◌, ◌/◌, ◌^◌, ◌≤◌, ◌<◌, ◌≡◌, refl, inl, inr, Bool-cases, some, List, [], ◌∷◌,
  arith, ltb, length, get_elem?, if◌then◌else◌,
}
use kedastral.Base.Int.{ℤ, pos, ◌≤ℤ◌, ltb_ℤ, wrap64, wrap64_id, quot, ◌*ℤ◌}
use kedastral.Base.Time.{second}
use kedastral.Scaler.{highest, lead_steps, clamp_steps, select_from}

best-le-highest : (rounds : ℕ) (best : ℤ) (rs : List ℤ) → best ≤ℤ highest rounds best rs
unfolding highest
best-le-highest zero best rs = omega arith
best-le-highest (suc n) best [] = omega arith
best-le-highest (suc n) best (r ∷ rs) =
    ground (arith, best-le-highest n (if ltb_ℤ best r then r else best) rs)

elem-le-highest :
    (rounds : ℕ) (best : ℤ) (rs : List ℤ) (i : ℕ) (x : ℤ)
    → get_elem? rs i ≡ some x
    → i < rounds
    → x ≤ℤ highest rounds best rs
unfolding highest
elem-le-highest zero best rs i x h k = absurd (omega arith)
elem-le-highest (suc n) best [] i x h k = cc
elem-le-highest (suc n) best (r ∷ rs) zero x h k =
    ground (arith, best-le-highest n (if ltb_ℤ best r then r else best) rs)
elem-le-highest (suc n) best (r ∷ rs) (suc i) x h k =
    elem-le-highest n (if ltb_ℤ best r then r else best) rs i x h (omega arith)

-- where the largest count stands in `best ∷ rs`
highest-elem :
    (rounds : ℕ) (best : ℤ) (rs : List ℤ)
    → (j : ℕ) × (get_elem? (best ∷ rs) j ≡ some (highest rounds best rs)) × (j ≤ rounds)
unfolding highest
highest-elem zero best rs = (0, refl, omega arith)
highest-elem (suc n) best [] = (0, refl, omega arith)
highest-elem (suc n) best (r ∷ rs) = elim (Bool-cases (ltb_ℤ best r)) [
  | inl up ↦ let (j, e, k) = highest-elem n r rs in (suc j, rw up e, omega arith)
  | inr stay ↦ rw stay (skip (highest-elem n best rs))
]
  where
    skip :
        (j : ℕ) × (get_elem? (best ∷ rs) j ≡ some (highest n best rs)) × (j ≤ n)
        → (j : ℕ) × (get_elem? (best ∷ r ∷ rs) j ≡ some (highest n best rs)) × (j ≤ suc n)
    skip (zero, e, k) = (0, e, omega arith)
    skip (suc j, e, k) = (suc (suc j), e, omega arith)

-- Over a window of `k + 1` entries.
abbrev InWindow : (k : ℕ) (rs : List ℤ) (best : ℤ) → Type 0
InWindow k rs best =
    ((i : ℕ) (x : ℤ) → get_elem? rs i ≡ some x → i ≤ k → x ≤ℤ best)
    × ((j : ℕ) × (get_elem? rs j ≡ some best) × (j ≤ k))

highest-InWindow :
    (rounds : ℕ) (r : ℤ) (rs : List ℤ) → InWindow rounds (r ∷ rs) (highest rounds r rs)
highest-InWindow n r rs = (upper, highest-elem n r rs)
  where
    upper : (i : ℕ) (x : ℤ) → get_elem? (r ∷ rs) i ≡ some x → i ≤ n → x ≤ℤ highest n r rs
    upper zero x h k = ground (arith, best-le-highest n r rs)
    upper (suc i) x h k = elem-le-highest n r rs i x h (omega arith)

get_elem?-lt {ℓ} :
    {A : Type ℓ} (xs : List A) (i : ℕ) (x : A) → get_elem? xs i ≡ some x → i < length xs
get_elem?-lt [] i x h = cc
get_elem?-lt (y ∷ ys) zero x h = omega arith
get_elem?-lt (y ∷ ys) (suc i) x h = omega (arith, get_elem?-lt ys i x h)

steps_lem :
    (l d n : ℕ)
    → 0 < d
    → l < 2 ^ 63
    → clamp_steps (lead_steps (pos l) (pos d)) (suc n) ≡ (if ltb n (l / d) then n else l / d)
unfolding clamp_steps lead_steps quot
steps_lem l d n h k =
    let small : l / d < 2 ^ 63 = omega (arith, div-le_self l d) in
    rw (wrap64_id (pos (l / d)) (small, omega arith)) (ground arith)

step_duration_lem :
    (step : ℕ) → step * 10 ^ 9 < 2 ^ 63 → wrap64 (pos step *ℤ second) ≡ pos (step * 10 ^ 9)
step_duration_lem step h = rw (times step) (wrap64_id (pos (step * 10 ^ 9)) (h, omega arith))
  where
    times : (n : ℕ) → pos n *ℤ second ≡ pos (n * 10 ^ 9)
    times n = unfold ◌*ℤ◌ in ground arith

select_from_lem :
    (lead d : ℕ) (step r : ℤ) (rs : List ℤ)
    → wrap64 (step *ℤ second) ≡ pos d
    → 0 < d
    → lead < 2 ^ 63
    → select_from (pos lead) step (r ∷ rs)
      ≡ some (highest (if ltb (length rs) (lead / d) then length rs else lead / d) r rs)
select_from_lem lead d step r rs e h k =
    unfold select_from in rw (e, steps_lem lead d (length rs) h k) (ground arith)

-- With a positive step of `step` seconds and a lead time of `lead` nanoseconds, both in the range of a
-- `Duration`, and a plan that is not empty, the selected count is
-- the largest of those planned for the times from now to the lead time: no entry at an offset of at
-- most `lead` is above it, and it is one of these entries.
pub select_from-largest :
    (lead step : ℕ) (r : ℤ) (rs : List ℤ)
    → 0 < step
    → step * 10 ^ 9 < 2 ^ 63
    → lead < 2 ^ 63
    → (best : ℤ) × (select_from (pos lead) (pos step) (r ∷ rs) ≡ some best)
      × ((i : ℕ) (x : ℤ) → get_elem? (r ∷ rs) i ≡ some x → i * (step * 10 ^ 9) ≤ lead → x ≤ℤ best)
      × ((j : ℕ) × (get_elem? (r ∷ rs) j ≡ some best) × (j * (step * 10 ^ 9) ≤ lead))
select_from-largest lead step r rs h k l =
    let d = step * 10 ^ 9 in
    let q = lead / d in
    let rounds = if ltb (length rs) q then length rs else q in
    let (upper, (j, e, j_le)) = highest-InWindow rounds r rs in
    let below = λ (i : ℕ). le-div_iff_mul-le {k = d} {x = i} {y = lead} (omega arith) in
    let j_le' : j ≤ q = ground (arith, j_le) in
    (
      highest rounds r rs,
      select_from_lem lead d (pos step) r rs (step_duration_lem step k) (omega arith) l,
      λ i x at within.
          let i_le : i ≤ q = (below i).1 within in
          upper i x at (ground (arith, get_elem?-lt (r ∷ rs) i x at, i_le)),
      (j, e, (below j).0 j_le'),
    )
