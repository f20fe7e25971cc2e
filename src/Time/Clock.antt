-- ===== src/Time/Clock.antt =====
-- A clock text read back, and what the precise form loses.
use escp.Base.{
  ℕ, ◌+◌, ◌-◌, ◌*◌, ◌/◌, ◌%◌, ◌<◌, ◌≡◌, ap, sym, ◌∙◌, inl, inr, true, false, [], ◌∷◌, ◌++◌, Text,
  ltb, ◌==◌, arith, if◌then◌else◌, Bool-cases, append-nil,
}
use escp.Str.Decimal.{IsDigit, read-to_string}
use escp.Time.{pad2, coarse, precise, convert_time}

-- The seconds that `H:M:S` or `M:S` stands for: fields are base 60. `done` holds the fields read.
abbrev pub clock : ℕ → Text → ℕ → ℕ
clock done [] n = done + n
clock done (c ∷ s) n =
    if c == b':' then clock ((done + n) * 60) s 0 else clock done s (n * 10 + (c - b'0'))

clock-step :
    (done c : ℕ) (s : Text) (n : ℕ)
    → IsDigit c
    → clock done (c ∷ s) n ≡ clock done s (n * 10 + (c - b'0'))
clock-step done c s n h = ground arith

clock-pad2 : (done n : ℕ) (rest : Text) → clock done (pad2 n ++ rest) 0 ≡ clock done rest n
unfolding pad2
clock-pad2 done n rest = elim (Bool-cases (ltb n 10)) [
  | inl e ↦ rw e (read-to_string (clock done) (clock-step done) n rest)
  | inr e ↦ rw e (read-to_string (clock done) (clock-step done) n rest)
]

clock-pad2_last : (done n : ℕ) → clock done (pad2 n) 0 ≡ done + n
clock-pad2_last done n = ap (λ s. clock done s 0) (sym (append-nil (pad2 n))) ∙ clock-pad2 done n []

-- The text of the form that is not precise, read as a clock, is the duration in whole seconds,
-- however long it is.
pub clock-convert_time : (t : ℕ) (three two : Text) → clock 0 (convert_time t three two false) 0 ≡ t
unfolding convert_time coarse
clock-convert_time t three two = elim (Bool-cases (ltb 3600 t)) [
  | inl e ↦ rw e (
      clock-pad2 0 (t / 3600) _
      ∙ clock-pad2 ((0 + t / 3600) * 60) (t / 60 % 60) _
      ∙ clock-pad2_last (((0 + t / 3600) * 60 + t / 60 % 60) * 60) (t % 60)
      ∙ omega arith)
  | inr e ↦
      rw e (clock-pad2 0 (t / 60) _ ∙ clock-pad2_last ((0 + t / 60) * 60) (t % 60) ∙ omega arith)
]

-- Below one hour the precise form does not show the first digit of the fraction: two durations that
-- differ only there have the same text. (A fraction prints as `0.` and three digits.)
pub tenths_lost :
    (t a b d e : ℕ) (two two' : Text)
    → t < 3600
    → convert_time t (b'0' ∷ b'.' ∷ a ∷ d ∷ e ∷ []) two true
      ≡ convert_time t (b'0' ∷ b'.' ∷ b ∷ d ∷ e ∷ []) two' true
unfolding convert_time precise
tenths_lost t a b d e two two' h = ground arith
