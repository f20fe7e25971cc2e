-- ===== src/Human/Units.antt =====
-- The value that `int_from_human` gives a number with a unit.
use escp.Base.{
  ℕ, ◌*◌, ◌-◌, ◌/◌, ◌^◌, ◌≤◌, ◌<◌, ◌≡◌, refl, ap, sym, ◌∙◌, Bool, true, false, [], ◌∷◌, ◌++◌, Text,
  codes, arith, All, append-nil,
}
use native.Mathlib.Nat.{mod-eq_of_lt}
use escp.Str.{contains, strip_prefix}
use escp.Str.Decimal.{to_string, parse_uint-to_string, IsDigit, to_string-IsDigit}
use escp.Human.{split_unit, to_lowercase, unit_pow, scale, int_from_human}

pub data Prefix : Type 0 where
  kilo mega giga tera peta exa : Prefix

abbrev pub symbol : Bool → Prefix → ℕ
symbol false kilo = b'k'
symbol false mega = b'm'
symbol false giga = b'g'
symbol false tera = b't'
symbol false peta = b'p'
symbol false exa = b'e'
symbol true kilo = b'K'
symbol true mega = b'M'
symbol true giga = b'G'
symbol true tera = b'T'
symbol true peta = b'P'
symbol true exa = b'E'

abbrev pub exponent : Prefix → ℕ
exponent kilo = 1
exponent mega = 2
exponent giga = 3
exponent tera = 4
exponent peta = 5
exponent exa = 6

split_unit-digits :
    (s : Text) (unit : Text)
    → All IsDigit s
    → split_unit unit ≡ ([], unit)
    → split_unit (s ++ unit) ≡ (s, unit)
unfolding split_unit
split_unit-digits [] unit h e = e
split_unit-digits (c ∷ s) unit h e = ground (arith, split_unit-digits s unit h.1 e)

-- A printed number, then a text that is empty or begins with a letter.
int_from_human-scale :
    (n : ℕ) (unit : Text)
    → n ≤ 2 ^ 64 - 1
    → split_unit unit ≡ ([], unit)
    → int_from_human (to_string n ++ unit) ≡ scale n (to_lowercase unit)
unfolding int_from_human
int_from_human-scale n unit h e =
    rw (cut, int_from_human, parse_uint-to_string (2 ^ 64 - 1) n h)
      (ap (λ (p : Text × Text). scale n (to_lowercase p.1)) cut)
  where
    cut : split_unit (to_string n ++ unit) ≡ (to_string n, unit)
    cut = split_unit-digits (to_string n) unit (to_string-IsDigit n) e

split_unit-symbol :
    (upper : Bool) (p : Prefix) (rest : Text)
    → split_unit (symbol upper p ∷ rest) ≡ ([], symbol upper p ∷ rest)
unfolding split_unit
split_unit-symbol true kilo rest = refl
split_unit-symbol false kilo rest = refl
split_unit-symbol _ _ rest = refl

unit_pow-symbol :
    (upper : Bool) (p : Prefix) (rest : Text)
    → unit_pow (to_lowercase (symbol upper p ∷ rest)) ≡ exponent p
unfolding unit_pow to_lowercase
unit_pow-symbol true kilo rest = refl
unit_pow-symbol false kilo rest = refl
unit_pow-symbol _ _ rest = refl

scale_bytes :
    (val p : ℕ) (u : Text)
    → contains (codes "bit") u ≡ false
    → unit_pow u ≡ p
    → val * 1024 ^ p < 2 ^ 64
    → scale val u ≡ val * 1024 ^ p
unfolding scale
scale_bytes val p u nb e fits = rw (nb, e) (mod-eq_of_lt fits)

scale_bits :
    (val p : ℕ) (u : Text)
    → contains (codes "bit") u ≡ true
    → unit_pow u ≡ p
    → val * 1000 ^ p < 2 ^ 64
    → scale val u ≡ val * 1000 ^ p / 8
unfolding scale
scale_bits val p u nb e fits = rw (nb, e) (ap (λ x. x / 8) (mod-eq_of_lt fits))

-- A printed number is read as itself.
pub int_from_human_plain : (n : ℕ) → n ≤ 2 ^ 64 - 1 → int_from_human (to_string n) ≡ n
unfolding split_unit to_lowercase scale unit_pow contains strip_prefix
int_from_human_plain n h =
    ap int_from_human (sym (append-nil (to_string n)))
    ∙ int_from_human-scale n [] h refl
    ∙ omega arith

-- A number with a unit that begins with one of k, m, g, t, p, e, in either case, and that does not
-- hold `bit`: the number times 1024 to the power of the unit, if that fits a u64.
pub int_from_human-bytes :
    (n : ℕ) (upper : Bool) (p : Prefix) (rest : Text)
    → n ≤ 2 ^ 64 - 1
    → contains (codes "bit") (to_lowercase (symbol upper p ∷ rest)) ≡ false
    → n * 1024 ^ exponent p < 2 ^ 64
    → int_from_human (to_string n ++ symbol upper p ∷ rest) ≡ n * 1024 ^ exponent p
int_from_human-bytes n upper p rest h nb fits =
    int_from_human-scale n (symbol upper p ∷ rest) h (split_unit-symbol upper p rest)
    ∙ scale_bytes n (exponent p) _ nb (unit_pow-symbol upper p rest) fits

-- With `bit` in the unit: the number times 1000 to the power of the unit, divided by 8, if the
-- product fits a u64. So `1kbit` is 125.
pub int_from_human-bits :
    (n : ℕ) (upper : Bool) (p : Prefix) (rest : Text)
    → n ≤ 2 ^ 64 - 1
    → contains (codes "bit") (to_lowercase (symbol upper p ∷ rest)) ≡ true
    → n * 1000 ^ exponent p < 2 ^ 64
    → int_from_human (to_string n ++ symbol upper p ∷ rest) ≡ n * 1000 ^ exponent p / 8
int_from_human-bits n upper p rest h nb fits =
    int_from_human-scale n (symbol upper p ∷ rest) h (split_unit-symbol upper p rest)
    ∙ scale_bits n (exponent p) _ nb (unit_pow-symbol upper p rest) fits
