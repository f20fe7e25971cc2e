-- ===== src/Base/Sort.antt =====
-- `sort_by_key` of slices, which is stable, and its laws.
use mathlib.Core.List.{Perm}
use mathlib.Core.List.Perm
use Prim.Native.Nat.{ℕ, suc, ◌≤◌, ◌<◌}
use mathlib.Core.Path.{◌≡◌, refl, ap, ◌∙◌}
use mathlib.Core.Logic.{◌≢◌, inl, inr}
use mathlib.Core.Bool.{true, false}
use mathlib.Core.List.{List, [], ◌∷◌}
use native.Mathlib.Omega.{arith}
use escp.Base.Tests.{leb, if◌then◌else◌, Bool-cases}
use escp.Base.Lists.{All, length}

module _ {A : Type 0} (key : A → ℕ) where
  insert_sorted : A → List A → List A
  insert_sorted a [] = a ∷ []
  insert_sorted a (b ∷ bs) = if leb (key a) (key b) then a ∷ b ∷ bs else b ∷ insert_sorted a bs

  unfoldable pub sort_by_key : List A → List A
  unfolding insert_sorted
  sort_by_key [] = []
  sort_by_key (a ∷ l) = insert_sorted a (sort_by_key l)

  -- All keys are above `k`.
  abbrev pub Above : ℕ → List A → Type 0
  Above k = All (λ a. k < key a)

  abbrev pub Rising : List A → Type 0
  Rising [] = Unit
  Rising (a ∷ l) = Above (key a) l × Rising l

  abbrev pub EachOnce : List A → Type 0
  EachOnce [] = Unit
  EachOnce (a ∷ l) = All (λ b. key b ≢ key a) l × EachOnce l

  All-insert_sorted :
      (P : A → Type 0) (a : A) (l : List A) → P a → All P l → All P (insert_sorted a l)
  unfolding insert_sorted
  All-insert_sorted P a [] h hs = (h, tt)
  All-insert_sorted P a (b ∷ l) h (hb, hs) = elim (Bool-cases (leb (key a) (key b))) [
    | inl q ↦ rw q (h, (hb, hs))
    | inr q ↦ rw q (hb, All-insert_sorted P a l h hs)
  ]

  pub All-sort_by_key : (P : A → Type 0) (l : List A) → All P l → All P (sort_by_key l)
  unfolding sort_by_key
  All-sort_by_key P [] h = tt
  All-sort_by_key P (a ∷ l) (h, hs) =
      All-insert_sorted P a (sort_by_key l) h (All-sort_by_key P l hs)

  pub Above-trans : (j k : ℕ) (l : List A) → j ≤ k → Above k l → Above j l
  Above-trans j k [] h a = tt
  Above-trans j k (e ∷ l) h (x, a) = (omega arith, Above-trans j k l h a)

  Rising-insert_sorted :
      (a : A) (l : List A) → All (λ b. key b ≢ key a) l → Rising l → Rising (insert_sorted a l)
  unfolding insert_sorted
  Rising-insert_sorted a [] ne r = (tt, tt)
  Rising-insert_sorted a (b ∷ l) (n, ne) (ab, r) = elim (Bool-cases (leb (key a) (key b))) [
    | inl q ↦ rw q ((less q, Above-trans (key a) (key b) l (least q) ab), (ab, r))
    | inr q ↦
        rw q (All-insert_sorted (λ x. key b < key x) a l (most q) ab, Rising-insert_sorted a l ne r)
  ]
    where
      less : leb (key a) (key b) ≡ true → key a < key b
      less q = ground (arith, n)

      least : leb (key a) (key b) ≡ true → key a ≤ key b
      least q = ground arith

      most : leb (key a) (key b) ≡ false → key b < key a
      most q = ground arith

  pub Rising-sort_by_key : (l : List A) → EachOnce l → Rising (sort_by_key l)
  unfolding sort_by_key
  Rising-sort_by_key [] o = tt
  Rising-sort_by_key (a ∷ l) (ne, o) =
      Rising-insert_sorted a (sort_by_key l) (All-sort_by_key (λ b. key b ≢ key a) l ne)
        (Rising-sort_by_key l o)

  All-apart : (k : ℕ) (l : List A) → Above k l → All (λ b. key b ≢ k) l
  All-apart k [] a = tt
  All-apart k (b ∷ l) (h, a) = ((λ q. omega arith), All-apart k l a)

  pub Rising-EachOnce : (l : List A) → Rising l → EachOnce l
  Rising-EachOnce [] r = tt
  Rising-EachOnce (b ∷ l) (a, r) = (All-apart (key b) l a, Rising-EachOnce l r)

  Perm-insert_sorted : (a : A) (l : List A) → Perm (insert_sorted a l) (a ∷ l)
  unfolding insert_sorted
  Perm-insert_sorted a [] = Perm.refl (a ∷ [])
  Perm-insert_sorted a (b ∷ l) = elim (Bool-cases (leb (key a) (key b))) [
    | inl q ↦ rw q (Perm.refl (a ∷ b ∷ l))
    | inr q ↦ rw q (Perm.trans (Perm.cons b (Perm-insert_sorted a l)) (Perm.swap a b l))
  ]

  pub Perm-sort_by_key : (l : List A) → Perm (sort_by_key l) l
  unfolding sort_by_key
  Perm-sort_by_key [] = Perm.refl []
  Perm-sort_by_key (a ∷ l) =
      Perm.trans (Perm-insert_sorted a (sort_by_key l)) (Perm.cons a (Perm-sort_by_key l))

  length-insert_sorted : (a : A) (l : List A) → length (insert_sorted a l) ≡ suc (length l)
  unfolding insert_sorted
  length-insert_sorted a [] = refl
  length-insert_sorted a (b ∷ l) = elim (Bool-cases (leb (key a) (key b))) [
    | inl q ↦ rw q refl
    | inr q ↦ rw q (ap suc (length-insert_sorted a l))
  ]

  pub length-sort_by_key : (l : List A) → length (sort_by_key l) ≡ length l
  unfolding sort_by_key
  length-sort_by_key [] = refl
  length-sort_by_key (a ∷ l) =
      length-insert_sorted a (sort_by_key l) ∙ ap suc (length-sort_by_key l)
