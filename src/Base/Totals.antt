-- ===== src/Base/Totals.antt =====
-- Sums over lists, which do not depend on the order.
use mathlib.Core.List.{Perm}
use mathlib.Core.List.Perm
use Prim.Native.Nat.{ℕ, ◌+◌}
use mathlib.Core.Path.{◌≡◌, refl, ap, ◌∙◌, sym}
use mathlib.Core.List.{List, [], ◌∷◌, ◌++◌, foldr}
use native.Mathlib.Omega.{arith}
use native.Mathlib.Nat.{ℕ_set}
use escp.Base.Lists.{length}

module _ {A : Type 0} (f : A → ℕ) where
  unfoldable pub total : List A → ℕ
  total [] = 0
  total (x ∷ xs) = f x + total xs

  pub total-append : (xs ys : List A) → total (xs ++ ys) ≡ total xs + total ys
  unfolding total
  total-append [] ys = omega arith
  total-append (x ∷ xs) ys = omega (arith, total-append xs ys)

  total-foldr : (xs : List A) → total xs ≡ foldr (λ x n. f x + n) 0 xs
  unfolding total
  total-foldr [] = refl
  total-foldr (x ∷ xs) = ap (λ n. f x + n) (total-foldr xs)

  pub Perm-total : {xs ys : List A} → Perm xs ys → total xs ≡ total ys
  Perm-total {xs} {ys} p =
      total-foldr xs
      ∙ Perm.foldr-eq ℕ_set (λ (x : A) (n : ℕ). f x + n) (λ a b n. omega arith) p 0
      ∙ sym (total-foldr ys)

pub length-total : {A : Type 0} (xs : List A) → total (λ x. 1) xs ≡ length xs
unfolding total
length-total [] = refl
length-total (x ∷ xs) = omega (arith, length-total xs)

pub Perm-length : {A : Type 0} {xs ys : List A} → Perm xs ys → length xs ≡ length ys
Perm-length {A} {xs} {ys} p = sym (length-total xs) ∙ Perm-total (λ x. 1) p ∙ length-total ys
