-- ===== src/Str/Laws.antt =====
-- What the splits and strips find, and when they find nothing.
use escp.Base.{
  ℕ, true, length, some_inj, none-ne-some, Bool-cases, ◌==◌, ◌≡◌, ◌≢◌, refl, [], ◌∷◌, ◌++◌, none,
  some, Text, arith, Lacks, Option-cases, inl, inr,
}
use escp.Str.Defs.{
  strip_prefix, strip_suffix, split_once, rsplit_once, at_boundary, bounded, behind, split_at,
  is_space, before, trim_end,
}

pub strip_prefix-append : (p s : Text) → strip_prefix p (p ++ s) ≡ some s
unfolding strip_prefix
strip_prefix-append [] s = refl
strip_prefix-append (c ∷ p) s = ground (arith, strip_prefix-append p s)

pub strip_suffix-append : (b : ℕ) (s : Text) → strip_suffix b (s ++ b ∷ []) ≡ some s
unfolding strip_suffix
strip_suffix-append b [] = ground arith
strip_suffix-append b (c ∷ []) = ground arith
strip_suffix-append b (c ∷ d ∷ s) = rw (strip_suffix-append b (d ∷ s), strip_suffix)

pub split_once-append : (b : ℕ) (l r : Text) → Lacks b l → split_once b (l ++ b ∷ r) ≡ some (l, r)
unfolding split_once
split_once-append b [] r h = ground arith
split_once-append b (c ∷ l) r h = ground (arith, split_once-append b l r h.1)

pub split_once-Lacks : (b : ℕ) (s : Text) → Lacks b s → split_once b s ≡ none
unfolding split_once
split_once-Lacks b [] h = refl
split_once-Lacks b (c ∷ s) h = ground (arith, split_once-Lacks b s h.1)

pub rsplit_once-Lacks : (b : ℕ) (s : Text) → Lacks b s → rsplit_once b s ≡ none
unfolding rsplit_once
rsplit_once-Lacks b [] h = refl
rsplit_once-Lacks b (c ∷ s) h = ground (arith, rsplit_once-Lacks b s h.1)

pub rsplit_once-append : (b : ℕ) (l r : Text) → Lacks b r → rsplit_once b (l ++ b ∷ r) ≡ some (l, r)
unfolding rsplit_once
rsplit_once-append b [] r h = ground (arith, rsplit_once-Lacks b r h)
rsplit_once-append b (c ∷ l) r h = ground (arith, rsplit_once-append b l r h)

pub Lacks-of_rsplit_once : (b : ℕ) (s : Text) → rsplit_once b s ≡ none → Lacks b s
unfolding rsplit_once
Lacks-of_rsplit_once b [] h = tt
Lacks-of_rsplit_once b (c ∷ s) h = ground (arith, Lacks-of_rsplit_once b s)

-- A split spells the text, and the right part has no further occurrence.
pub rsplit_once_sound :
    (b : ℕ) (s l r : Text) → rsplit_once b s ≡ some (l, r) → (s ≡ l ++ b ∷ r) × Lacks b r
unfolding rsplit_once
rsplit_once_sound b [] l r h = cc
rsplit_once_sound b (c ∷ s) l r h = elim (Option-cases (rsplit_once b s)) [
  | inl e ↦ ground (arith, Lacks-of_rsplit_once b s e)
  | inr (p, e) ↦ ground (arith, rsplit_once_sound b s p.0 p.1)
]

pub split_at-append :
    (l r : Text) → at_boundary r ≡ true → split_at (length l) (l ++ r) ≡ some (l, r)
unfolding split_at bounded behind
split_at-append [] r h = rw h refl
split_at-append (c ∷ l) r h = rw (split_at-append l r h) refl

pub trim_end-newline : (s : Text) → trim_end (s ++ 10 ∷ []) ≡ trim_end s
unfolding trim_end before is_space
trim_end-newline [] = refl
trim_end-newline (c ∷ s) = rw (trim_end-newline s) refl

before-cons : (c : ℕ) (s : Text) → s ≢ [] → before c s ≡ c ∷ s
unfolding before
before-cons c [] h = absurd (h refl)
before-cons c (d ∷ s) h = refl

append-ne-nil : (s r : Text) → r ≢ [] → s ++ r ≢ []
append-ne-nil [] r h = h
append-ne-nil (c ∷ s) r h = λ q. cc

-- A text that ends in one that is not empty and keeps its end.
pub trim_end-append : (s r : Text) → r ≢ [] → trim_end r ≡ r → trim_end (s ++ r) ≡ s ++ r
unfolding trim_end
trim_end-append [] r n h = h
trim_end-append (c ∷ s) r n h =
    rw (trim_end-append s r n h) (before-cons c (s ++ r) (append-ne-nil s r n))

pub strip_prefix_sound : (p s r : Text) → strip_prefix p s ≡ some r → s ≡ p ++ r
unfolding strip_prefix
strip_prefix_sound [] s r q = some_inj q
strip_prefix_sound (c ∷ p) [] r q = absurd (none-ne-some q)
strip_prefix_sound (c ∷ p) (d ∷ s) r q = elim (Bool-cases (c == d)) [
  | inl e ↦ ground (arith, strip_prefix_sound p s r (rw e at q), e)
  | inr e ↦ absurd (none-ne-some (rw e at q))
]
