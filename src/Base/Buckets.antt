-- ===== src/Base/Buckets.antt =====
-- Go's `map[int]V` as an association list with one entry for a key, in an order that Go leaves open.
use mathlib.Core.Path.{◌≡◌, refl}
use mathlib.Core.Logic.{inl, inr}
use mathlib.Core.Bool.{Bool, true, false}
use mathlib.Core.Option.{Option, none, some}
use mathlib.Core.List.{List, [], ◌∷◌}
use native.Mathlib.Omega.{arith}
use kedastral.Base.Tests.{if◌then◌else◌, Bool-cases}
use kedastral.Base.Int.{ℤ, eqb_ℤ}

-- `map[int]A`
abbrev pub Buckets {ℓ} : Type ℓ → Type ℓ
Buckets A = List (ℤ × A)

eqb_ℤ_same : (i j k : ℤ) → eqb_ℤ i k ≡ true → eqb_ℤ i j ≡ eqb_ℤ k j
eqb_ℤ_same i j k h = ground arith

eqb_ℤ_other : (i j k : ℤ) → eqb_ℤ i k ≡ false → eqb_ℤ k j ≡ true → eqb_ℤ i j ≡ false
eqb_ℤ_other i j k h e = ground arith

module _ {ℓ} {A : Type ℓ} where
  unfoldable pub find_bucket : ℤ → Buckets A → Option A
  find_bucket k [] = none
  find_bucket k ((j, a) ∷ bs) = if eqb_ℤ j k then some a else find_bucket k bs

  unfoldable pub set_bucket : ℤ → A → Buckets A → Buckets A
  set_bucket k a [] = (k, a) ∷ []
  set_bucket k a ((j, b) ∷ bs) =
      let rest = set_bucket k a bs in if eqb_ℤ j k then (k, a) ∷ bs else (j, b) ∷ rest

  if_same :
      (q r : Bool) (x y z : Option A)
      → r ≡ q
      → (if q then x else z) ≡ (if q then x else if r then y else z)
  if_same true r x y z h = refl
  if_same false r x y z h = rw h refl

  if_other :
      (q r : Bool) (x y z : Option A)
      → (q ≡ true → r ≡ false)
      → (if r then y else if q then x else z) ≡ (if q then x else if r then y else z)
  if_other true r x y z h = rw (h refl) refl
  if_other false r x y z h = refl

  pub find_bucket-set_bucket :
      (k j : ℤ) (a : A) (bs : Buckets A)
      → find_bucket j (set_bucket k a bs) ≡ (if eqb_ℤ k j then some a else find_bucket j bs)
  unfolding find_bucket set_bucket
  find_bucket-set_bucket k j a [] = refl
  find_bucket-set_bucket k j a ((i, b) ∷ bs) = elim (Bool-cases (eqb_ℤ i k)) [
    | inl h ↦
        rw h (
          if_same (eqb_ℤ k j) (eqb_ℤ i j) (some a) (some b) (find_bucket j bs) (eqb_ℤ_same i j k h))
    | inr h ↦
        rw (h, find_bucket-set_bucket k j a bs)
          (if_other (eqb_ℤ k j) (eqb_ℤ i j) (some a) (some b) (find_bucket j bs)
            (eqb_ℤ_other i j k h))
  ]
