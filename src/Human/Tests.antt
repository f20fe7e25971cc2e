-- ===== src/Human/Tests.antt =====
-- Inputs at which the theorems about `int_from_human` are applied.
use escp.Base.{◌≡◌, refl, ◌*◌, ◌^◌, ◌++◌, ◌∷◌, codes, true, false, arith}
use escp.Str.{contains, strip_prefix}
use escp.Str.Decimal.{to_string, parse_uint}
use escp.Human.{int_from_human, split_unit, to_lowercase}
use escp.Human.Units.{kilo, mega, int_from_human-bytes, int_from_human-bits}

megabytes_example : int_from_human (to_string 5 ++ b'M' ∷ codes "B") ≡ 5 * 1024 ^ 2
unfolding to_lowercase contains strip_prefix
megabytes_example = int_from_human-bytes 5 true mega (codes "B") (omega arith) refl (omega arith)

-- The comment above the function says 1000.
kilobit_example : int_from_human (to_string 1 ++ b'k' ∷ codes "bit") ≡ 125
unfolding to_lowercase contains strip_prefix
kilobit_example = int_from_human-bits 1 false kilo (codes "bit") (omega arith) refl (omega arith)

no_number : int_from_human (codes "1.5G") ≡ 0
unfolding int_from_human split_unit parse_uint
no_number = refl
