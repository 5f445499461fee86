-- ===== src/Base/Text.antt =====
-- Texts as the numbers of their characters, and the pattern of a workload name that the configuration
-- and the HTTP routes share.
use Prim.Native.Char.{code}
use Prim.Native.String.{String}
use mathlib.Core.Bool.{Bool, true, false, ◌&&◌, ◌||◌}
use mathlib.Core.List.{List, [], ◌∷◌}
use mathlib.Core.Path.{◌≡◌, refl}
use mathlib.Core.Logic.{inl, inr}
use text.Mathlib.Text.{◌==◌ as str_eq}
use text.Mathlib.TextEquality.{eq_iff}
use kedastral.Base.Tests.{leb, ◌==◌, Bool-cases}
use kedastral.Base.Lists.{length}
use Prim.Native.Nat.{ℕ}

abbrev pub runes : String → List ℕ
runes String.[] = []
runes (String.◌∷◌ c rest) = code c ∷ runes rest

-- `[a-zA-Z0-9]`
abbrev pub is_alphanumeric : ℕ → Bool
is_alphanumeric c =
    (leb b'a' c && leb c b'z') || (leb b'A' c && leb c b'Z') || (leb b'0' c && leb c b'9')

-- `[a-zA-Z0-9_-]`
abbrev pub is_name_rune : ℕ → Bool
is_name_rune c = is_alphanumeric c || (c == b'_') || (c == b'-')

-- `[a-zA-Z0-9_-]*[a-zA-Z0-9]`, to the end of the text
unfoldable pub ends_name : List ℕ → Bool
ends_name [] = false
ends_name (c ∷ []) = is_alphanumeric c
ends_name (c ∷ d ∷ cs) = is_name_rune c && ends_name (d ∷ cs)

-- `([a-zA-Z0-9_-]{0,251}[a-zA-Z0-9])?$`
unfoldable pub is_name_rest : List ℕ → Bool
unfolding ends_name
is_name_rest [] = true
is_name_rest (c ∷ cs) = leb (length (c ∷ cs)) 252 && ends_name (c ∷ cs)

unfoldable pub is_name_runes : List ℕ → Bool
unfolding is_name_rest
is_name_runes [] = false
is_name_runes (c ∷ cs) = is_alphanumeric c && is_name_rest cs

-- `workloadNameRegex.MatchString`
unfoldable pub is_workload_name : String → Bool
unfolding is_name_runes
is_workload_name name = is_name_runes (runes name)

-- A test that the empty text fails.
pub fails_nonempty :
    (test : String → Bool) (s : String) → test "" ≡ false → test s ≡ true → str_eq s "" ≡ false
fails_nonempty test s e h = elim (Bool-cases (str_eq s "")) [
  | inl is_empty ↦ absurd (cc (h, e, (eq_iff s "").0 is_empty))
  | inr k ↦ k
]

pub is_workload_name_nonempty : (s : String) → is_workload_name s ≡ true → str_eq s "" ≡ false
unfolding is_workload_name
is_workload_name_nonempty s h = fails_nonempty is_workload_name s refl h
