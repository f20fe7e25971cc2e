-- ===== src/Base/Tables.antt =====
-- A `HashMap` with number keys, as the function that `get` computes. (The program never walks one.)
use Prim.Native.Nat.{ℕ}
use mathlib.Core.Path.{◌≡◌, fun_ext}
use mathlib.Core.Logic.{◌≢◌}
use mathlib.Core.Option.{Option, none, some}
use native.Mathlib.Omega.{arith}
use escp.Base.Tests.{◌==◌, if◌then◌else◌}

abbrev pub HashMap {ℓ} : Type ℓ → Type ℓ
HashMap V = ℕ → Option V

module _ {ℓ} {V : Type ℓ} where
  abbrev pub empty_map : HashMap V
  empty_map j = none

  abbrev pub insert : ℕ → V → HashMap V → HashMap V
  insert k v m j = if k == j then some v else m j

  abbrev pub remove : ℕ → HashMap V → HashMap V
  remove k m j = if k == j then none else m j

  pub insert_self : (k : ℕ) (v : V) (m : HashMap V) → insert k v m k ≡ some v
  insert_self k v m = ground arith

  pub insert_ne : (k j : ℕ) (v : V) (m : HashMap V) → k ≢ j → insert k v m j ≡ m j
  insert_ne k j v m h = ground arith

  pub insert-insert : (k : ℕ) (v w : V) (m : HashMap V) → insert k v (insert k w m) ≡ insert k v m
  insert-insert k v w m = fun_ext λ j. ground arith

  pub insert_comm :
      (k l : ℕ) (v w : V) (m : HashMap V)
      → k ≢ l
      → insert k v (insert l w m) ≡ insert l w (insert k v m)
  insert_comm k l v w m h = fun_ext λ j. ground arith
