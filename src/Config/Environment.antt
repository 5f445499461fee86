-- ===== src/Config/Environment.antt =====
-- cmd/forecaster/config/config.go: how the ADAPTER_ variables become the adapter's configuration. A text
-- is the list of its characters; names and separators are ASCII, so that Go's bytes and runes agree.
use mathlib.Core.List.{◌++◌ as append, append-nil, append_assoc}
use kedastral.Base.{
  ℕ, ◌+◌, ◌≡◌, refl, Bool, true, false, ◌&&◌, List, [], ◌∷◌, if◌then◌else◌, leb, ◌==◌, arith, All,
}

-- `splitEnv`, with the text before and from the first `=`
unfoldable pub split_at_equals : List ℕ → List ℕ → List (List ℕ)
split_at_equals before [] = before ∷ []
split_at_equals before (c ∷ cs) =
    let rest = split_at_equals (append before (c ∷ [])) cs in
    if c == b'=' then before ∷ cs ∷ [] else rest

unfoldable pub split_env : List ℕ → List (List ℕ)
unfolding split_at_equals
split_env env = split_at_equals [] env

unfoldable pub lower_rune : ℕ → ℕ
lower_rune r = if leb b'A' r && leb r b'Z' then r + 32 else r

-- The loop of `toLowerCamelCase` after the first character, with `nextUpper`.
unfoldable pub camel_rest : Bool → List ℕ → List ℕ
unfolding lower_rune
camel_rest next_upper [] = []
camel_rest next_upper (r ∷ rs) =
    let after_underscore = camel_rest true rs in
    let after_rune = camel_rest false rs in
    if r == b'_' then after_underscore else (if next_upper then r else lower_rune r) ∷ after_rune

unfoldable pub to_lower_camel_case : List ℕ → List ℕ
unfolding camel_rest
to_lower_camel_case [] = []
to_lower_camel_case (r ∷ rs) =
    if r == b'_' then camel_rest true rs else lower_rune r ∷ camel_rest false rs

abbrev pub IsNot : ℕ → ℕ → Type 0
IsNot c d = (d == c) ≡ false

split_at_equals-append :
    (before key value : List ℕ)
    → All (IsNot b'=') key
    → split_at_equals before (append key (b'=' ∷ value)) ≡ append before key ∷ value ∷ []
unfolding split_at_equals
split_at_equals-append before [] value h = rw (append-nil before) refl
split_at_equals-append before (c ∷ key) value h =
    rw
      (
        h.0,
        split_at_equals-append (append before (c ∷ [])) key value h.1,
        append_assoc before (c ∷ []) key,
      )
      refl

-- A variable whose name has no `=` is split at its first `=`: into its name and the whole of its
-- value, which may contain further ones.
pub split_env-append :
    (key value : List ℕ)
    → All (IsNot b'=') key
    → split_env (append key (b'=' ∷ value)) ≡ key ∷ value ∷ []
unfolding split_env
split_env-append key value h = split_at_equals-append [] key value h

camel_rest-IsNot : (u : Bool) (rs : List ℕ) → All (IsNot b'_') (camel_rest u rs)
unfolding camel_rest
camel_rest-IsNot u [] = tt
camel_rest-IsNot u (r ∷ rs) = ground (arith, camel_rest-IsNot true rs, camel_rest-IsNot false rs)

-- A key in camel case has no underscore left.
pub to_lower_camel_case-IsNot : (rs : List ℕ) → All (IsNot b'_') (to_lower_camel_case rs)
unfolding to_lower_camel_case
to_lower_camel_case-IsNot [] = tt
to_lower_camel_case-IsNot (r ∷ rs) =
    ground (arith, camel_rest-IsNot true rs, camel_rest-IsNot false rs)
