-- ===== src/Human.antt =====
-- `int_from_human` of src/escp.rs: sizes and rates with a unit, as in `512K` or `10Gbit`.
pub mod Units
pub mod Tests
use escp.Base.{
  ℕ, suc, ◌*◌, ◌+◌, ◌/◌, ◌%◌, ◌^◌, ◌-◌, Bool, true, false, ◌&&◌, ◌||◌, [], ◌∷◌, Option, none, some,
  Text, codes, leb, ◌==◌, if◌then◌else◌, map,
}
use escp.Str.{strip_prefix, contains}
use escp.Str.Decimal.{parse_uint}

is_letter : ℕ → Bool
is_letter c = (leb b'a' c && leb c b'z') || (leb b'A' c && leb c b'Z')

-- `split_at` at the first match of `[a-zA-Z]`, or at the end.
pub split_unit : Text → Text × Text
unfolding is_letter
split_unit [] = ([], [])
split_unit (c ∷ s) =
    let (number, unit) = split_unit s in if is_letter c then ([], c ∷ s) else (c ∷ number, unit)

-- `to_lowercase`; a character outside ASCII never matters to the tests below.
unfoldable pub lower : ℕ → ℕ
lower c = if leb b'A' c && leb c b'Z' then c + 32 else c

unfoldable pub to_lowercase : Text → Text
unfolding lower
to_lowercase = map lower

-- The position of the byte in the text.
position : ℕ → Text → Option ℕ
position b [] = none
position b (c ∷ s) =
    if c == b then some 0 else elim (position b s) [ none ↦ none | some i ↦ some (suc i) ]

abbrev unit_names : Text
unit_names = codes " kmgtpe"

-- The power of the unit's first letter; 0 for an unknown letter and for no unit.
unit_pow : Text → ℕ
unfolding position
unit_pow [] = 0
unit_pow (x ∷ _) = elim (position x unit_names) [ none ↦ 0 | some i ↦ i ]

-- `val * multiplier.pow(pow) / divisor` in a u64, which wraps in a release build.
scale : ℕ → Text → ℕ
unfolding unit_pow contains
scale val u =
    if contains (codes "bit") u
    then val * 1000 ^ unit_pow u % 2 ^ 64 / 8
    else val * 1024 ^ unit_pow u % 2 ^ 64

pub int_from_human : Text → ℕ
int_from_human s =
    let (number, unit) = split_unit s in
    elim (parse_uint (2 ^ 64 - 1) number) [ none ↦ 0 | some val ↦ scale val (to_lowercase unit) ]
