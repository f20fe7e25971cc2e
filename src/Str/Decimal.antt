-- ===== src/Str/Decimal.antt =====
-- `to_string` and `parse` of unsigned numbers.
use escp.Base.{
  ℕ, zero, suc, ◌+◌, ◌-◌, ◌*◌, ◌/◌, ◌%◌, ◌≤◌, ◌<◌, ◌≡◌, refl, ◌||◌, [], ◌∷◌, ◌++◌, Option, none,
  some, Text, ltb, ◌==◌, arith, if◌then◌else◌, Bool-cases, inl, inr, All, Lacks, ◌≢◌, ◌⊎◌, sym, ap,
  ◌∙◌,
}

-- Each round of the loop writes the lowest digit; a number has fewer digits than its successor.
digits : ℕ → ℕ → Text → Text
digits zero n out = out
digits (suc f) n out =
    let rest = digits f (n / 10) ((b'0' + n % 10) ∷ out) in
    if ltb n 10 then (b'0' + n) ∷ out else rest

unfoldable pub to_string : ℕ → Text
unfolding digits
to_string n = digits (suc n) n []

-- A byte that is no digit, or a value above the type's greatest number, is an error.
unfoldable pub scan : ℕ → Text → ℕ → Option ℕ
scan top [] n = some n
scan top (c ∷ s) n =
    let d = c - b'0' in
    if ltb c b'0' || ltb b'9' c
    then none
    else if ltb top (n * 10 + d)
    then none
    else scan top s (n * 10 + d)

unfoldable pub scan_some : ℕ → Text → Option ℕ
unfolding scan
scan_some top [] = none
scan_some top (c ∷ s) = scan top (c ∷ s) 0

-- `s.parse::<uN>().ok()` for the type whose greatest number is `top`; one leading `+` is accepted.
unfoldable pub parse_uint : ℕ → Text → Option ℕ
unfolding scan_some
parse_uint top [] = none
parse_uint top (c ∷ s) = if c == b'+' then scan_some top s else scan_some top (c ∷ s)

-- What is not a sign and a digit at the head.
abbrev pub IsDigit : ℕ → Type 0
IsDigit c = (b'0' ≤ c) × (c ≤ b'9')

scan-nil : (top n : ℕ) → scan top [] n ≡ some n
unfolding scan
scan-nil top n = refl

digits_lem :
    (f n : ℕ) (out : Text) → n < f → (d : ℕ) × (s : Text) × (digits f n out ≡ d ∷ s) × IsDigit d
unfolding digits
digits_lem zero n out h = elim h [ ]
digits_lem (suc f) n out h = elim (Bool-cases (ltb n 10)) [
  | inl e ↦ (b'0' + n, out, rw e, ground arith)
  | inr e ↦ rw e (digits_lem f (n / 10) _ (ground arith))
]

scan-digits :
    (top f n : ℕ) (out : Text) → n < f → n ≤ top → scan top (digits f n out) 0 ≡ scan top out n
unfolding digits scan
scan-digits top zero n out h t = elim h [ ]
scan-digits top (suc f) n out h t =
    ground (arith, scan-digits top f (n / 10) ((b'0' + n % 10) ∷ out))

parse_uint-digit : (top d : ℕ) (s : Text) → IsDigit d → parse_uint top (d ∷ s) ≡ scan top (d ∷ s) 0
unfolding parse_uint
parse_uint-digit top d s h = ground arith

-- Every number of the type is read back from its print.
pub parse_uint-to_string : (top n : ℕ) → n ≤ top → parse_uint top (to_string n) ≡ some n
unfolding to_string
parse_uint-to_string top n h =
    let (d, s, e, hd) = digits_lem (suc n) n [] (omega arith) in
    rw e (parse_uint-digit top d s hd)
    ∙ ap (λ t. scan top t 0) (sym e)
    ∙ scan-digits top (suc n) n [] (omega arith) h
    ∙ scan-nil top n

digits-IsDigit : (f n : ℕ) (out : Text) → All IsDigit out → All IsDigit (digits f n out)
unfolding digits
digits-IsDigit zero n out h = h
digits-IsDigit (suc f) n out h = elim (Bool-cases (ltb n 10)) [
  | inl e ↦ rw e (ground arith, h)
  | inr e ↦ rw e (digits-IsDigit f (n / 10) _ (ground arith, h))
]

All-Lacks : (b : ℕ) (s : Text) → (b < b'0') ⊎ (b'9' < b) → All IsDigit s → Lacks b s
All-Lacks b [] h k = tt
All-Lacks b (c ∷ s) h k = (ground arith, All-Lacks b s h k.1)

-- A print holds digits only.
pub to_string-Lacks : (b n : ℕ) → (b < b'0') ⊎ (b'9' < b) → Lacks b (to_string n)
unfolding to_string
to_string-Lacks b n h = All-Lacks b _ h (digits-IsDigit (suc n) n [] tt)

pub to_string-IsDigit : (n : ℕ) → All IsDigit (to_string n)
unfolding to_string
to_string-IsDigit n = digits-IsDigit (suc n) n [] tt

pub to_string-ne-nil : (n : ℕ) → to_string n ≢ []
unfolding to_string
to_string-ne-nil n = let (d, s, e, hd) = digits_lem (suc n) n [] (omega arith) in rw e (λ x. cc)

digits-append : (f n : ℕ) (out rest : Text) → digits f n out ++ rest ≡ digits f n (out ++ rest)
unfolding digits
digits-append zero n out rest = refl
digits-append (suc f) n out rest =
    ground (arith, digits-append f (n / 10) ((b'0' + n % 10) ∷ out) rest)

-- A reader that takes a digit `c` after the value `n` to the value `n * 10 + (c - b'0')`.
module _ {ℓ} {A : Type ℓ} (read : Text → ℕ → A)
    (step : (c : ℕ) (s : Text) (n : ℕ)
      → IsDigit c
      → read (c ∷ s) n ≡ read s (n * 10 + (c - b'0'))) where
  read-digits : (f n : ℕ) (out : Text) → n < f → read (digits f n out) 0 ≡ read out n
  unfolding digits
  read-digits zero n out h = elim h [ ]
  read-digits (suc f) n out h = elim (Bool-cases (ltb n 10)) [
    | inl e ↦ rw e (step (b'0' + n) out 0 (ground arith) ∙ ap (read out) (omega arith))
    | inr e ↦ rw e (
        read-digits f (n / 10) _ (ground arith)
        ∙ step (b'0' + n % 10) out (n / 10) (omega arith)
        ∙ ap (read out) (omega arith))
  ]

  -- So it reads a printed number back, whatever follows it.
  pub read-to_string : (n : ℕ) (rest : Text) → read (to_string n ++ rest) 0 ≡ read rest n
  unfolding to_string
  read-to_string n rest =
      ap (λ s. read s 0) (digits-append (suc n) n [] rest)
      ∙ read-digits (suc n) n rest (omega arith)
