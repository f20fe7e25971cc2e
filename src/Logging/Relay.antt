-- ===== src/Logging/Relay.antt =====
-- From libdtn's error on the receiver to what the sender prints.
use escp.Base.{
  ℕ, ◌-◌, ◌^◌, ◌≤◌, ◌≡◌, ◌≢◌, refl, sym, ap, ◌∙◌, true, false, List, [], ◌∷◌, ◌++◌, append_assoc,
  some, Text, Lacks, codes, arith,
}
use escp.Base.Int.{ℤ, pos, as_u64, as_i32}
use escp.Str.{
  at_boundary, split_at, trim, trim_end, trim_end-newline, trim_end-append, split_at-append,
  trim_start, is_space,
}
use escp.Wire.Flat.{Flatbuffers}
use escp.Wire.LogMessage.{LogMessage, message_default}
use escp.Wire.LogList.{LogList, create_log_list, read_log_list, read_log_list-create_log_list}
use escp.Sender.Check.{Checksums}
use escp.Sender.Alerts.{of_file, print, show_one, show_each, show_messages, show_list}
use escp.Logging.{
  message_list, Act, sends, no_line, line, say_error, pass_on, of_err, head_and_text, err_turn,
  clog_turn,
}
use escp.Logging.Report.{report_text, front, report_text-front, parse_error-report_text}

-- `"[ERR] " a "\n"`
abbrev pub err_line : Text → Text
err_line s = codes "[ERR] " ++ (s ++ 10 ∷ [])

head_and_text-err_line :
    (s : Text)
    → s ≢ []
    → trim_end s ≡ s
    → at_boundary s ≡ true
    → head_and_text (err_line s) ≡ some (codes "[ERR] ", s)
unfolding head_and_text trim trim_start is_space
head_and_text-err_line s n h b =
    ap (split_at 6) (
      ap trim_end (sym (append_assoc (codes "[ERR] ") s (10 ∷ [])))
      ∙ trim_end-newline (codes "[ERR] " ++ s)
      ∙ trim_end-append (codes "[ERR] ") s n h)
    ∙ split_at-append (codes "[ERR] ") s b

as_i32_small : (n : ℕ) → n ≤ 2 ^ 31 - 1 → as_i32 (as_u64 (pos n)) ≡ pos n
as_i32_small n h = ground (arith, h)

as_u64_small : (n : ℕ) → n ≤ 2 ^ 31 - 1 → as_u64 (pos n) ≡ n
as_u64_small n h = ground (arith, h)

report_text-ne-nil :
    (c : ℕ) (id : Text) (errno fino : ℕ) (rest : Text) → report_text c id errno fino rest ≢ []
report_text-ne-nil c id errno fino rest = λ q. cc

trim_end-report_text :
    (c : ℕ) (id : Text) (errno fino : ℕ) (rest : Text)
    → rest ≢ []
    → trim_end rest ≡ rest
    → trim_end (report_text c id errno fino rest) ≡ report_text c id errno fino rest
trim_end-report_text c id errno fino rest n h =
    rw (report_text-front c id errno fino rest) (trim_end-append (front c id errno fino) rest n h)

module _ (c : ℕ) (id : Text) (errno fino : ℕ) (rest : Text) (hm : Checksums) where
  -- What the sender is told of the report.
  told : LogMessage
  told = record message_default {
    is_error = true;
    message = some rest;
    code = some (pos fino ∷ pos errno ∷ []);
  }

  show_list-told :
      (crc : ℤ) (name : Text)
      → hm fino ≡ some (crc, name)
      → errno ≤ 2 ^ 31 - 1
      → fino ≤ 2 ^ 31 - 1
      → show_list hm (message_list told)
        ≡ record { shown = of_file rest name (pos errno) ∷ []; panicked = false }
  unfolding show_list show_messages show_each show_one print told
  show_list-told crc name q he hf = rw (as_i32_small errno he, as_u64_small fino hf, q) refl

  -- An error that libdtn reports on the receiver, with a file's number and an error's number that fit
  -- an i32 and a text that is not empty and ends in no space, reaches the sender as a message, which
  -- prints the text with the name that it has for the file, and the error's number.
  pub clog_turn-show_list :
      (fb : Flatbuffers) (E : Type 0) (crc : ℤ) (name : Text)
      → c ≢ b'e'
      → c ≢ b'f'
      → Lacks b'[' (c ∷ id)
      → errno ≤ 2 ^ 31 - 1
      → fino ≤ 2 ^ 31 - 1
      → at_boundary rest ≡ true
      → rest ≢ []
      → trim_end rest ≡ rest
      → hm fino ≡ some (crc, name)
      → (l : LogList) × ((acts : List Act) × ((clog_turn true no_line
                (line (err_line (report_text c id errno fino rest)))
              ≡ some (sends l ∷ acts))
            × (show_list hm (read_log_list fb (create_log_list fb {E = E} l))
                ≡ record { shown = of_file rest name (pos errno) ∷ []; panicked = false })))
  unfolding clog_turn err_turn of_err pass_on told
  clog_turn-show_list fb E crc name ne nf l he hf hb n h q = (
    message_list told,
    (
      say_error (report_text c id errno fino rest),
      (
        rw
            (
              head_and_text-err_line (report_text c id errno fino rest)
                  (report_text-ne-nil c id errno fino rest)
                  (trim_end-report_text c id errno fino rest n h) refl,
              parse_error-report_text c id errno fino rest ne nf l he hf hb,
            )
            refl,
        rw (read_log_list-create_log_list fb E (message_list told))
            (show_list-told crc name q he hf),
      ),
    ),
  )
