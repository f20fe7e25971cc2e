-- ===== src/Wire/Flat.antt =====
-- The `flatbuffers` crate as the generated code of src/escp/{file_spec,session_init,message}.rs uses
-- it: a table is built by pushing slots, and read back slot by slot. The crate is a parameter.
use escp.Base.{
  ℕ, ◌≡◌, refl, Bool, true, false, List, [], ◌∷◌, map, Option, none, some, Text, arith, ◌==◌,
  if◌then◌else◌,
}
use escp.Base.Int.{ℤ, pos, negsuc, eqb_ℤ}

-- What a slot holds; `E` is the type of the tables in a vector.
pub data Value (E : Type 0) : Type 0 where
  number : ℕ → Value E
  signed : ℤ → Value E
  flag : Bool → Value E
  str : Text → Value E
  vector : List ℤ → Value E
  tables : List E → Value E

-- A push of a scalar, left out of the table when it is the default, and `if let Some(x) = .. { .. }`
-- round a `push_slot_always`.
pub data Push (E : Type 0) : Type 0 where
  push_slot : ℕ → Value E → Value E → Push E
  push_slot_if_some : ℕ → Option (Value E) → Push E

module _ {E : Type 0} where
  unfoldable pub same : Value E → Value E → Bool
  same (number a) (number b) = a == b
  same (signed a) (signed b) = eqb_ℤ a b
  same (flag true) (flag true) = true
  same (flag false) (flag false) = true
  same _ _ = false

  abbrev pub slot_of : Push E → ℕ
  slot_of (push_slot s v d) = s
  slot_of (push_slot_if_some s v) = s

  abbrev or_else : Option (Value E) → Option (Value E) → Option (Value E)
  or_else none o = o
  or_else (some v) o = some v

  abbrev stored : Option (Value E) → Push E → Option (Value E)
  stored o (push_slot s v d) = if same v d then o else some v
  stored o (push_slot_if_some s v) = or_else v o

  -- What reading a slot gives, with the default `o`.
  abbrev pub found : ℕ → Option (Value E) → List (Push E) → Option (Value E)
  found s o [] = o
  found s o (p ∷ ps) = if slot_of p == s then stored o p else found s o ps

abbrev has : ℕ → List ℕ → Bool
has s [] = false
has s (t ∷ ts) = if t == s then true else has s ts

abbrev pub distinct : List ℕ → Bool
distinct [] = true
distinct (s ∷ ss) = if has s ss then false else distinct ss

-- The crate: a table has what was pushed, if no slot was pushed twice.
pub record Flatbuffers : Type 1 where
  pub Table : Type 0 → Type 0
  pub end_table : {E : Type 0} → List (Push E) → Table E
  pub get : {E : Type 0} → Table E → ℕ → Option (Value E) → Option (Value E)
  pub get-end_table :
      {E : Type 0} (ps : List (Push E)) (s : ℕ) (o : Option (Value E))
      → distinct (map slot_of ps) ≡ true
      → get (end_table ps) s o ≡ found s o ps

-- A vector's elements, if it is there.
unfoldable pub map_option {ℓ} : {A B : Type ℓ} → (A → B) → Option A → Option B
map_option f none = none
map_option f (some a) = some (f a)

-- The typed reads. A slot read at another type than it was pushed with has no meaning in the crate;
-- the code never does that.
module _ {E : Type 0} where
  abbrev pub as_number : Option (Value E) → ℕ
  as_number (some (number n)) = n
  as_number _ = 0

  abbrev pub as_signed : Option (Value E) → ℤ
  as_signed (some (signed n)) = n
  as_signed _ = pos 0

  abbrev pub as_flag : Option (Value E) → Bool
  as_flag (some (flag b)) = b
  as_flag _ = false

  abbrev pub as_str : Option (Value E) → Option Text
  as_str (some (str t)) = some t
  as_str _ = none

  abbrev pub as_vector : Option (Value E) → Option (List ℤ)
  as_vector (some (vector l)) = some l
  as_vector _ = none

  abbrev pub as_tables : Option (Value E) → Option (List E)
  as_tables (some (tables l)) = some l
  as_tables _ = none

  abbrev pub of_str : Option Text → Option (Value E)
  of_str none = none
  of_str (some t) = some (str t)

  abbrev pub of_vector : Option (List ℤ) → Option (Value E)
  of_vector none = none
  of_vector (some l) = some (vector l)

  abbrev pub of_tables : Option (List E) → Option (Value E)
  of_tables none = none
  of_tables (some l) = some (tables l)

module _ (E : Type 0) where
  -- A scalar that was pushed is read back, also when it was left out for being the default.
  pub number_lem :
      (n : ℕ)
      → as_number {E = E}
          (if same {E = E} (number n) (number 0) then some (number 0) else some (number n))
        ≡ n
  unfolding same
  number_lem n = ground arith

  pub signed_lem :
      (z : ℤ)
      → as_signed {E = E} (
          if same {E = E} (signed z) (signed (pos 0))
          then some (signed (pos 0))
          else some (signed z))
        ≡ z
  unfolding same
  signed_lem (pos n) = ground arith
  signed_lem (negsuc n) = ground arith

  pub flag_lem :
      (b : Bool)
      → as_flag {E = E}
          (if same {E = E} (flag b) (flag false) then some (flag false) else some (flag b))
        ≡ b
  unfolding same
  flag_lem true = refl
  flag_lem false = refl

  pub str_lem : (t : Option Text) → as_str {E = E} (or_else (of_str t) none) ≡ t
  str_lem none = refl
  str_lem (some t) = refl

  pub vector_lem : (l : Option (List ℤ)) → as_vector {E = E} (or_else (of_vector l) none) ≡ l
  vector_lem none = refl
  vector_lem (some l) = refl

  pub tables_lem : (l : Option (List E)) → as_tables {E = E} (or_else (of_tables l) none) ≡ l
  tables_lem none = refl
  tables_lem (some l) = refl
