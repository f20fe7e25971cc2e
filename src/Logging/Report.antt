-- ===== src/Logging/Report.antt =====
-- `parse_error` reads the numbers that libdtn writes into its message.
use escp.Base.{
  ℕ, suc, ◌+◌, ◌-◌, ◌^◌, ◌≤◌, ◌≡◌, ◌≢◌, refl, sym, ap, ◌∙◌, inr, true, false, ◌&&◌, ◌||◌, [], ◌∷◌,
  ◌++◌, append_assoc, Option, some, Text, length, length-append, leb, ◌==◌, arith, All, All-append,
  Lacks,
}
use escp.Base.Int.{pos}
use escp.Str.{strip_prefix, strip_prefix-append, at_boundary, split_at-append}
use escp.Str.Decimal.{
  to_string, IsDigit, parse_uint-to_string, to_string-Lacks, to_string-IsDigit, to_string-ne-nil,
}
use escp.Wire.LogMessage.{message_default}
use escp.Logging.{
  in_class, class_run, Match, tag, or_later, match_or, find, parse_i32, number_of, text_start,
  alert, parse_error,
}

abbrev pub close : Text
close = b']' ∷ b' ' ∷ []

-- The field with the file's number, and the one with the error's, each with what is behind it.
abbrev pub fn_part : ℕ → Text → Text
fn_part fino rest = tag b'f' ++ (to_string fino ++ (close ++ rest))

abbrev pub en_part : ℕ → ℕ → Text → Text
en_part errno fino rest = tag b'e' ++ (to_string errno ++ (close ++ fn_part fino rest))

-- `"[%2d] [en: %d] [fn: %ld] ..."`: the first field has a byte at least.
abbrev pub report_text : ℕ → Text → ℕ → ℕ → Text → Text
report_text c id errno fino rest = b'[' ∷ c ∷ (id ++ (close ++ en_part errno fino rest))

Lacks-close : Lacks b'[' close
Lacks-close = ((λ q. omega (arith, q)), ((λ q. omega (arith, q)), tt))

-- A text without brackets is passed over.
find-Lacks :
    (e at_byte : ℕ) (s t : Text)
    → Lacks b'[' s
    → find e at_byte (s ++ t) ≡ find e (at_byte + length s) t
unfolding find tag match_or strip_prefix
find-Lacks e at_byte [] t h = ap (λ n. find e n t) (omega arith)
find-Lacks e at_byte (c ∷ s) t (x, h) =
    rw (other x) (find-Lacks e (suc at_byte) s t h ∙ ap (λ n. find e n t) (omega arith))
  where
    other : c ≢ b'[' → (b'[' == c) ≡ false
    other y = ground (arith, y)

-- So is a bracket, if another letter than the tag's is behind it.
find-bracket :
    (e at_byte c : ℕ) (t : Text)
    → c ≢ e
    → find e at_byte (b'[' ∷ c ∷ t) ≡ find e (suc at_byte) (c ∷ t)
unfolding find tag match_or strip_prefix
find-bracket e at_byte c t h = rw (other h) refl
  where
    other : c ≢ e → (e == c) ≡ false
    other y = ground (arith, y)

class_run-digits : (d t : Text) → All IsDigit d → class_run (d ++ b']' ∷ t) ≡ d
unfolding class_run in_class
class_run-digits [] t h = refl
class_run-digits (c ∷ d) t (x, h) = rw (class_run-digits d t h, digit x) refl
  where
    digit : IsDigit c → (c == b'(' || c == b')' || leb b'0' c && leb c b'9') ≡ true
    digit y = ground (arith, y)

found_at : ℕ → ℕ → Text → Match
found_at e at_byte d = record { text = tag e ++ d; ends = at_byte + length (tag e ++ d) }

or_later-some :
    (e at_byte : ℕ) (later : Option Match) (d : Text)
    → d ≢ []
    → or_later e at_byte later d ≡ some (found_at e at_byte d)
unfolding or_later found_at
or_later-some e at_byte later [] h = absurd (h refl)
or_later-some e at_byte later (c ∷ d) h = refl

find-hit :
    (e at_byte : ℕ) (d t : Text)
    → d ≢ []
    → All IsDigit d
    → find e at_byte (tag e ++ (d ++ b']' ∷ t)) ≡ some (found_at e at_byte d)
unfolding find match_or
find-hit e at_byte d t n h =
    rw (strip_prefix-append (tag e) (d ++ b']' ∷ t), class_run-digits d t h)
      (or_later-some e at_byte _ d n)

at_boundary-digits : (d : Text) → All IsDigit d → at_boundary d ≡ true
at_boundary-digits [] h = refl
at_boundary-digits (c ∷ d) (x, h) = ground (arith, x)

number_of-found_at :
    (e at_byte n : ℕ)
    → n ≤ 2 ^ 31 - 1
    → number_of (some (found_at e at_byte (to_string n))) ≡ some n
unfolding number_of found_at parse_i32 tag
number_of-found_at e at_byte n h =
    rw
      (split_at-append (tag e) (to_string n)
        (at_boundary-digits (to_string n) (to_string-IsDigit n)))
      (parse_uint-to_string (2 ^ 31 - 1) n h)

Lacks-append : (b : ℕ) (s t : Text) → Lacks b s → Lacks b t → Lacks b (s ++ t)
Lacks-append b s t = All-append (λ c. c ≢ b) s t

find_en :
    (c : ℕ) (id : Text) (errno fino : ℕ) (rest : Text)
    → c ≢ b'e'
    → Lacks b'[' (c ∷ id)
    → find b'e' 0 (report_text c id errno fino rest)
      ≡ some (found_at b'e' (3 + length (c ∷ id)) (to_string errno))
find_en c id errno fino rest h l =
    find-bracket b'e' 0 c (id ++ (close ++ en_part errno fino rest)) h
    ∙ ap (find b'e' 1) (sym (append_assoc (c ∷ id) close (en_part errno fino rest)))
    ∙ find-Lacks b'e' 1 ((c ∷ id) ++ close) (en_part errno fino rest)
        (Lacks-append b'[' (c ∷ id) close l Lacks-close)
    ∙ ap (λ n. find b'e' n (en_part errno fino rest)) (omega (arith, length-append (c ∷ id) close))
    ∙ find-hit b'e' (3 + length (c ∷ id)) (to_string errno) (b' ' ∷ fn_part fino rest)
        (to_string-ne-nil errno) (to_string-IsDigit errno)

find_fn :
    (c : ℕ) (id : Text) (errno fino : ℕ) (rest : Text)
    → c ≢ b'f'
    → Lacks b'[' (c ∷ id)
    → find b'f' 0 (report_text c id errno fino rest)
      ≡ some (found_at b'f' (10 + length (c ∷ id) + length (to_string errno)) (to_string fino))
unfolding tag
find_fn c id errno fino rest h l =
    find-bracket b'f' 0 c (id ++ (close ++ en_part errno fino rest)) h
    ∙ ap (find b'f' 1) (sym (append_assoc (c ∷ id) close (en_part errno fino rest)))
    ∙ find-Lacks b'f' 1 ((c ∷ id) ++ close) (en_part errno fino rest)
        (Lacks-append b'[' (c ∷ id) close l Lacks-close)
    ∙ find-bracket b'f' (1 + length ((c ∷ id) ++ close)) b'e'
        (b'n' ∷ b':' ∷ b' ' ∷ (to_string errno ++ (close ++ fn_part fino rest)))
        (λ q. omega (arith, q))
    ∙ ap (find b'f' start)
        (sym (append_assoc (b'e' ∷ b'n' ∷ b':' ∷ b' ' ∷ to_string errno) close (fn_part fino rest)))
    ∙ find-Lacks b'f' start ((b'e' ∷ b'n' ∷ b':' ∷ b' ' ∷ to_string errno) ++ close)
        (fn_part fino rest)
        (Lacks-append b'[' (b'e' ∷ b'n' ∷ b':' ∷ b' ' ∷ to_string errno) close lacks_en Lacks-close)
    ∙ ap (λ n. find b'f' n (fn_part fino rest))
        (omega (
          arith,
          length-append (c ∷ id) close,
          length-append (b'e' ∷ b'n' ∷ b':' ∷ b' ' ∷ to_string errno) close,
        ))
    ∙ find-hit b'f' (10 + length (c ∷ id) + length (to_string errno)) (to_string fino) (b' ' ∷ rest)
        (to_string-ne-nil fino) (to_string-IsDigit fino)
  where
    start : ℕ
    start = suc (1 + length ((c ∷ id) ++ close))

    lacks_en : Lacks b'[' (b'e' ∷ b'n' ∷ b':' ∷ b' ' ∷ to_string errno)
    lacks_en = (
      (λ q. omega (arith, q)),
      (
        (λ q. omega (arith, q)),
        (
          (λ q. omega (arith, q)),
          ((λ q. omega (arith, q)), to_string-Lacks b'[' errno (inr (omega arith))),
        ),
      ),
    )

-- What is in front of the text.
pub front : ℕ → Text → ℕ → ℕ → Text
front c id errno fino =
    b'['
    ∷ c
    ∷ (id
        ++ (close
            ++ (tag b'e'
                ++ (to_string errno ++ (close ++ (tag b'f' ++ (to_string fino ++ close)))))))

pub report_text-front :
    (c : ℕ) (id : Text) (errno fino : ℕ) (rest : Text)
    → report_text c id errno fino rest ≡ front c id errno fino ++ rest
unfolding front
report_text-front c id errno fino rest =
    let en = to_string errno in
    let fn = to_string fino in
    sym (
      rw
        (
          append_assoc id (close ++ (tag b'e' ++ (en ++ (close ++ (tag b'f' ++ (fn ++ close))))))
              rest,
          append_assoc (tag b'e') (en ++ (close ++ (tag b'f' ++ (fn ++ close)))) rest,
          append_assoc en (close ++ (tag b'f' ++ (fn ++ close))) rest,
          append_assoc (tag b'f') (fn ++ close) rest,
          append_assoc fn close rest,
        )
        refl)

text_start-front :
    (c : ℕ) (id : Text) (errno fino : ℕ)
    → text_start
        (some (found_at b'e' (3 + length (c ∷ id)) (to_string errno)))
        (some (found_at b'f' (10 + length (c ∷ id) + length (to_string errno)) (to_string fino)))
      ≡ length (front c id errno fino)
unfolding text_start front found_at tag
text_start-front c id errno fino =
    let en = to_string errno in
    let fn = to_string fino in
    ground (
      arith,
      length-append id (close ++ (tag b'e' ++ (en ++ (close ++ (tag b'f' ++ (fn ++ close)))))),
      length-append en (close ++ (tag b'f' ++ (fn ++ close))),
      length-append fn close,
    )

-- The receiver passes on what libdtn writes about a file that cannot be written: if the first field
-- has a byte at least, which is no `e` and no `f`, and no bracket inside, and the numbers fit an i32,
-- then the message has the file's number, the error's number, and the text behind them.
pub parse_error-report_text :
    (c : ℕ) (id : Text) (errno fino : ℕ) (rest : Text)
    → c ≢ b'e'
    → c ≢ b'f'
    → Lacks b'[' (c ∷ id)
    → errno ≤ 2 ^ 31 - 1
    → fino ≤ 2 ^ 31 - 1
    → at_boundary rest ≡ true
    → parse_error (report_text c id errno fino rest)
      ≡ some (record message_default {
        is_error = true;
        message = some rest;
        code = some (pos fino ∷ pos errno ∷ []);
      })
unfolding parse_error alert
parse_error-report_text c id errno fino rest ne nf l he hf hb =
    rw
      (
        find_en c id errno fino rest ne l,
        find_fn c id errno fino rest nf l,
        number_of-found_at b'e' (3 + length (c ∷ id)) errno he,
        number_of-found_at b'f' (10 + length (c ∷ id) + length (to_string errno)) fino hf,
        text_start-front c id errno fino,
        report_text-front c id errno fino rest,
        split_at-append (front c id errno fino) rest hb,
      )
      refl
