-- ===== src/Str/Defs.antt =====
-- `starts_with`, `strip_prefix`, `strip_suffix`, `split_once`, `rsplit_once`.
use escp.Base.{
  List, ℕ, zero, suc, ltb, leb, ◌&&◌, Bool, true, false, ◌||◌, [], ◌∷◌, Option, none, some, Text,
  ◌==◌, if◌then◌else◌,
}

unfoldable pub strip_prefix : Text → Text → Option Text
strip_prefix [] s = some s
strip_prefix (p ∷ ps) [] = none
strip_prefix (p ∷ ps) (c ∷ s) = if p == c then strip_prefix ps s else none

unfoldable pub starts_with : ℕ → Text → Bool
starts_with b [] = false
starts_with b (c ∷ s) = c == b

unfoldable pub strip_suffix : ℕ → Text → Option Text
strip_suffix b [] = none
strip_suffix b (c ∷ []) = if c == b then some [] else none
strip_suffix b (c ∷ d ∷ s) = elim (strip_suffix b (d ∷ s)) [ none ↦ none | some r ↦ some (c ∷ r) ]

-- At the first occurrence of the byte.
unfoldable pub split_once : ℕ → Text → Option (Text × Text)
split_once b [] = none
split_once b (c ∷ s) = elim (c == b) [
  | true ↦ some ([], s)
  | false ↦ elim (split_once b s) [ none ↦ none | some (l, r) ↦ some (c ∷ l, r) ]
]

-- At the last occurrence of the byte.
unfoldable pub rsplit_once : ℕ → Text → Option (Text × Text)
rsplit_once b [] = none
rsplit_once b (c ∷ s) = elim (rsplit_once b s) [
  | none ↦ if c == b then some ([], s) else none
  | some (l, r) ↦ some (c ∷ l, r)
]

-- `split` at every occurrence of the byte.
unfoldable pub prepend : ℕ → List Text → List Text
prepend c [] = (c ∷ []) ∷ []
prepend c (p ∷ ps) = (c ∷ p) ∷ ps

unfoldable pub split_on : ℕ → Text → List Text
unfolding prepend
split_on b [] = [] ∷ []
split_on b (c ∷ s) = let ps = split_on b s in if c == b then [] ∷ ps else prepend c ps

contains_at : Option Text → Bool
contains_at none = false
contains_at (some _) = true

unfoldable pub contains : Text → Text → Bool
unfolding contains_at
contains p [] = contains_at (strip_prefix p [])
contains p (c ∷ s) = contains_at (strip_prefix p (c ∷ s)) || contains p s

-- `split_at`: `none` is the panic, beyond the end or inside a character of several bytes.
abbrev pub at_boundary : Text → Bool
at_boundary [] = true
at_boundary (c ∷ s) = ltb c 128 || leb 192 c

unfoldable pub bounded : Text → Text → Option (Text × Text)
bounded l r = if at_boundary r then some (l, r) else none

unfoldable pub behind : ℕ → Option (Text × Text) → Option (Text × Text)
behind c none = none
behind c (some (l, r)) = some (c ∷ l, r)

unfoldable pub split_at : ℕ → Text → Option (Text × Text)
unfolding bounded behind
split_at zero s = bounded [] s
split_at (suc n) [] = none
split_at (suc n) (c ∷ s) = behind c (split_at n s)

-- `trim`, for the white space of ASCII.
unfoldable pub is_space : ℕ → Bool
is_space c = c == b' ' || leb 9 c && leb c 13

unfoldable pub trim_start : Text → Text
unfolding is_space
trim_start [] = []
trim_start (c ∷ s) = let rest = trim_start s in if is_space c then rest else c ∷ s

unfoldable pub before : ℕ → Text → Text
unfolding is_space
before c [] = if is_space c then [] else c ∷ []
before c (d ∷ s) = c ∷ d ∷ s

unfoldable pub trim_end : Text → Text
unfolding before
trim_end [] = []
trim_end (c ∷ s) = before c (trim_end s)

unfoldable pub trim : Text → Text
unfolding trim_start
trim s = trim_end (trim_start s)
