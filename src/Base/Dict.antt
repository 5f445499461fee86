-- ===== src/Base/Dict.antt =====
-- Go's `map[string]V` as an association list with one entry for a key. The order of the list stands
-- for the iteration order, which Go leaves open.
use Prim.Native.Nat.{◌+◌}
use Prim.Native.String.{String}
use mathlib.Core.Path.{◌≡◌, refl}
use mathlib.Core.Bool.{Bool, true, false}
use mathlib.Core.Option.{Option, none, some}
use mathlib.Core.List.{List, [], ◌∷◌}
use native.Mathlib.Omega.{arith}
use text.Mathlib.Text.{◌==◌ as str_eq}
use text.Mathlib.TextEquality.{eq_iff}
use kedastral.Base.Tests.{if◌then◌else◌}
use kedastral.Base.Lists.{length}

abbrev pub Dict {ℓ} : Type ℓ → Type ℓ
Dict V = List (String × V)

abbrev pub occurs : String → List String → Bool
occurs k [] = false
occurs k (j ∷ js) = if str_eq j k then true else occurs k js

module _ {ℓ} {V : Type ℓ} where
  -- `m[k]`, with the flag that the two-value form gives.
  unfoldable pub lookup : String → Dict V → Option V
  lookup k [] = none
  lookup k ((j, v) ∷ m) = if str_eq j k then some v else lookup k m

  -- `m[k] = v`
  unfoldable pub insert : String → V → Dict V → Dict V
  insert k v [] = (k, v) ∷ []
  insert k v ((j, w) ∷ m) = if str_eq j k then (k, v) ∷ m else (j, w) ∷ insert k v m

  -- `delete(m, k)`
  unfoldable pub erase : String → Dict V → Dict V
  erase k [] = []
  erase k ((j, w) ∷ m) = let rest = erase k m in if str_eq j k then rest else (j, w) ∷ rest

  unfoldable pub keys : Dict V → List String
  keys [] = []
  keys ((j, v) ∷ m) = j ∷ keys m

  -- Every key has one entry.
  abbrev pub IsMap : Dict V → Type ℓ
  IsMap [] = Unit
  IsMap ((j, v) ∷ m) = (lookup j m ≡ none) × IsMap m

  abbrev pub is_some : Option V → Bool
  is_some none = false
  is_some (some v) = true

  pub lookup-insert :
      (k j : String) (v : V) (m : Dict V)
      → lookup j (insert k v m) ≡ (if str_eq k j then some v else lookup j m)
  unfolding lookup insert
  lookup-insert k j v [] = refl
  lookup-insert k j v ((head, w) ∷ rest) =
      ground (arith, lookup-insert k j v rest, eq_iff head j, eq_iff head k, eq_iff k j)

  pub lookup-insert_self : (k : String) (v : V) (m : Dict V) → lookup k (insert k v m) ≡ some v
  lookup-insert_self k v m = rw (lookup-insert k k v m, (eq_iff k k).1 refl) refl

  pub lookup-erase :
      (k j : String) (m : Dict V) → lookup j (erase k m) ≡ (if str_eq k j then none else lookup j m)
  unfolding lookup erase
  lookup-erase k j [] = ground arith
  lookup-erase k j ((i, w) ∷ m) =
      ground (arith, lookup-erase k j m, eq_iff i k, eq_iff i j, eq_iff k j)

  pub insert-IsMap : (k : String) (v : V) (m : Dict V) → IsMap m → IsMap (insert k v m)
  unfolding lookup insert
  insert-IsMap k v [] h = ground arith
  insert-IsMap k v ((i, w) ∷ m) h =
      ground (arith, insert-IsMap k v m h.1, lookup-insert k i v m, eq_iff i k, eq_iff k i)

  pub erase-IsMap : (k : String) (m : Dict V) → IsMap m → IsMap (erase k m)
  unfolding lookup erase
  erase-IsMap k [] h = tt
  erase-IsMap k ((i, w) ∷ m) h = ground (arith, erase-IsMap k m h.1, lookup-erase k i m)

  pub length-insert :
      (k : String) (v : V) (m : Dict V)
      → length (insert k v m) ≡ (if is_some (lookup k m) then length m else length m + 1)
  unfolding lookup insert
  length-insert k v [] = ground arith
  length-insert k v ((i, w) ∷ m) = ground (arith, length-insert k v m)

  pub erase-absent : (k : String) (m : Dict V) → lookup k m ≡ none → erase k m ≡ m
  unfolding lookup erase
  erase-absent k [] h = refl
  erase-absent k ((i, w) ∷ m) h = ground (arith, erase-absent k m)

  pub length-erase :
      (k : String) (m : Dict V)
      → IsMap m
      → length m ≡ (if is_some (lookup k m) then length (erase k m) + 1 else length (erase k m))
  unfolding lookup erase
  length-erase k [] h = refl
  length-erase k ((i, w) ∷ m) h = ground (arith, length-erase k m h.1, erase-absent k m, eq_iff i k)

  pub occurs-keys : (k : String) (m : Dict V) → occurs k (keys m) ≡ is_some (lookup k m)
  unfolding lookup keys
  occurs-keys k [] = refl
  occurs-keys k ((i, w) ∷ m) = ground (arith, occurs-keys k m)
