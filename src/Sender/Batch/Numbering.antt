-- ===== src/Sender/Batch/Numbering.antt =====
-- Entries by their numbers: how often a number comes.
use mathlib.Core.List.{Perm}
use escp.Base.{
  one_if, ℕ, suc, ◌+◌, ◌≤◌, ◌<◌, ◌≡◌, ◌≢◌, refl, ap, sym, ◌∙◌, List, [], ◌∷◌, ◌++◌, length, All,
  ltb, leb, ◌&&◌, ◌==◌, arith,
}
use escp.Base.Sort.{Above, EachOnce}
use escp.Base.Totals.{total, Perm-total}
use escp.Sender.Batch.{Entry}
use escp.Sender.Batch.InOrder.{fino_of, numbers, count_up}

-- How many of the entries have the number.
unfoldable pub times : ℕ → List Entry → ℕ
times k [] = 0
times k (e ∷ es) = one_if (e.fino == k) + times k es

pub times-append : (k : ℕ) (es fs : List Entry) → times k (es ++ fs) ≡ times k es + times k fs
unfolding times
times-append k [] fs = omega arith
times-append k (e ∷ es) fs = omega (arith, times-append k es fs)

-- Entries with a number that comes once, and none with the number 0.
pub times-none : (k : ℕ) (es : List Entry) → times k es ≡ 0 → All (λ e. fino_of e ≢ k) es
unfolding times
times-none k [] q = tt
times-none k (e ∷ es) q = ((λ x. absurd (other x)), times-none k es (omega (arith, q)))
  where
    other : e.fino ≡ k → ⊥
    other x = ground (arith, q)

pub times-EachOnce : (es : List Entry) → ((k : ℕ) → times k es ≤ 1) → EachOnce fino_of es
unfolding times
times-EachOnce [] h = tt
times-EachOnce (e ∷ es) h =
    (times-none e.fino es (first (h e.fino)), times-EachOnce es (λ k. omega (arith, h k)))
  where
    first : one_if (e.fino == e.fino) + times e.fino es ≤ 1 → times e.fino es ≡ 0
    first q = ground (arith, q)

times-total : (k : ℕ) (es : List Entry) → times k es ≡ total (λ e. one_if (e.fino == k)) es
unfolding times total
times-total k [] = refl
times-total k (e ∷ es) = ap (λ n. one_if (e.fino == k) + n) (times-total k es)

pub Perm-times : (k : ℕ) (es fs : List Entry) → Perm es fs → times k es ≡ times k fs
Perm-times k es fs p =
    times-total k es ∙ Perm-total (λ e. one_if (e.fino == k)) p ∙ sym (times-total k fs)

-- Entries numbered from `n` + 1 on, in order.
pub times-count_up :
    (k n : ℕ) (es : List Entry)
    → numbers es ≡ count_up (suc n) (length es)
    → times k es ≡ one_if (ltb n k && leb k (n + length es))
unfolding times
times-count_up k n [] q = none
  where
    none : 0 ≡ one_if (ltb n k && leb k (n + 0))
    none = ground arith
times-count_up k n (e ∷ es) q = first (cc) (times-count_up k (suc n) es (cc))
  where
    first :
        e.fino ≡ suc n
        → times k es ≡ one_if (ltb (suc n) k && leb k (suc n + length es))
        → one_if (e.fino == k) + times k es ≡ one_if (ltb n k && leb k (n + suc (length es)))
    first x y = ground (arith, x, y)

-- Entries whose numbers all lie above `n` and up to `m`.
pub times-Above :
    (n m : ℕ) (es : List Entry)
    → ((k : ℕ) → times k es ≤ one_if (ltb n k && leb k m))
    → Above fino_of n es
unfolding times
times-Above n m [] h = tt
times-Above n m (e ∷ es) h = (first (h e.fino), times-Above n m es (λ k. omega (arith, h k)))
  where
    first :
        one_if (e.fino == e.fino) + times e.fino es ≤ one_if (ltb n e.fino && leb e.fino m)
        → n < e.fino
    first q = ground (arith, q)

pub times-Below :
    (n m : ℕ) (es : List Entry)
    → ((k : ℕ) → times k es ≤ one_if (ltb n k && leb k m))
    → All (λ e. e.fino ≤ m) es
unfolding times
times-Below n m [] h = tt
times-Below n m (e ∷ es) h = (first (h e.fino), times-Below n m es (λ k. omega (arith, h k)))
  where
    first :
        one_if (e.fino == e.fino) + times e.fino es ≤ one_if (ltb n e.fino && leb e.fino m)
        → e.fino ≤ m
    first q = ground (arith, q)
