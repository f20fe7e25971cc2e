-- ===== src/Config.antt =====
-- `start_escp` of src/escp.rs: the block size from the command line; the children have the other
-- arguments and the configuration file.
pub mod Machine
pub mod Flags
pub mod Settings
pub mod Start
mod Tests
use escp.Base.{
  ℕ, ◌*◌, ◌%◌, ◌^◌, ◌-◌, ◌≤◌, ◌<◌, ◌≡◌, refl, inl, inr, Bool, true, Text, ltb, if◌then◌else◌,
  Bool-cases, arith,
}
use escp.Base.Int.{ℤ, pos, negsuc, ltb_ℤ, as_i32}
use escp.Human.{int_from_human}

-- 256K at least.
at_least : ℤ → ℤ
at_least block = if ltb_ℤ block (pos (256 * 1024)) then pos (256 * 1024) else block

-- `int_from_human(..) as i32`, or the least size.
pub block_size : Text → ℤ
block_size s = at_least (as_i32 (int_from_human s))

-- A size that the I/O threads can use: at least 256K, and an i32.
abbrev pub IsUsable : ℤ → Type 0
IsUsable (pos b) = (262144 ≤ b) × (b < 2 ^ 31)
IsUsable (negsuc n) = ⊥

at_least-IsUsable : (z : ℤ) → ltb_ℤ z (pos (2 ^ 31)) ≡ true → IsUsable (at_least z)
unfolding at_least
at_least-IsUsable (pos n) h = elim (Bool-cases (ltb_ℤ (pos n) (pos 262144))) [
  | inl q ↦ rw q (omega arith, omega arith)
  | inr q ↦ rw q (ground arith, ground arith)
]
at_least-IsUsable (negsuc n) h = elim (Bool-cases (ltb_ℤ (negsuc n) (pos 262144))) [
  | inl q ↦ rw q (omega arith, omega arith)
  | inr q ↦ absurd (ground arith)
]

as_i32_bound : (n : ℕ) → ltb_ℤ (as_i32 n) (pos (2 ^ 31)) ≡ true
as_i32_bound n = elim (Bool-cases (ltb (n % 2 ^ 32) (2 ^ 31))) [
  | inl q ↦ rw q (ground (arith, q))
  | inr q ↦ rw q (ground arith)
]

-- Whatever text is given for the block size, a unit that does not exist, no number at all or a size
-- beyond 32 bits included, the block size is usable.
pub block_size-IsUsable : (s : Text) → IsUsable (block_size s)
unfolding block_size
block_size-IsUsable s =
    at_least-IsUsable (as_i32 (int_from_human s)) (as_i32_bound (int_from_human s))
