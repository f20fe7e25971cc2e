-- ===== src/Logging.antt =====
-- src/escp/logging.rs: where the log goes, and libdtn's messages, which the receiver passes on to the
-- sender.
pub mod Report
pub mod Relay
pub mod Start
mod Tests
use Prim.Native.Nat.{max}
use escp.Base.{
  ℕ, zero, suc, ◌+◌, ◌-◌, ◌^◌, Bool, true, false, ◌&&◌, ◌||◌, List, [], ◌∷◌, ◌++◌, Option, none,
  some, Text, codes, length, ltb, leb, ◌==◌, if◌then◌else◌,
}
use escp.Base.Int.{ℤ, pos}
use escp.Str.{strip_prefix, contains, split_at, trim}
use escp.Str.Decimal.{parse_uint}
use escp.Wire.LogMessage.{LogMessage, message_default}
use escp.Wire.LogList.{LogList}

-- The class `[(0-9)]` of the two regular expressions: a digit or a parenthesis.
in_class : ℕ → Bool
in_class c = c == b'(' || c == b')' || leb b'0' c && leb c b'9'

-- `[(0-9)]+` at the head: the longest run.
unfoldable pub class_run : Text → Text
unfolding in_class
class_run [] = []
class_run (c ∷ s) = let rest = class_run s in if in_class c then c ∷ rest else []

-- A match: its text and where it ends.
pub record Match : Type 0 where
  pub text : Text
  pub ends : ℕ

-- `\[en: ` with `e`, `\[fn: ` with `f`.
unfoldable pub tag : ℕ → Text
tag e = b'[' ∷ e ∷ b'n' ∷ b':' ∷ b' ' ∷ []

or_later : ℕ → ℕ → Option Match → Text → Option Match
unfolding tag
or_later e at_byte later [] = later
or_later e at_byte later (c ∷ s) =
    some (record { text = tag e ++ c ∷ s; ends = at_byte + length (tag e ++ c ∷ s) })

-- After looking for the tag at the head.
match_or : ℕ → ℕ → Option Match → Option Text → Option Match
unfolding or_later class_run
match_or e at_byte later none = later
match_or e at_byte later (some rest) = or_later e at_byte later (class_run rest)

-- `Regex::find`, the first match; the text stands at the given byte.
unfoldable pub find : ℕ → ℕ → Text → Option Match
unfolding tag match_or
find e at_byte [] = none
find e at_byte (c ∷ s) = match_or e at_byte (find e (suc at_byte) s) (strip_prefix (tag e) (c ∷ s))

parse_i32 : Option (Text × Text) → Option ℕ
parse_i32 none = none
parse_i32 (some (l, sy)) = parse_uint (2 ^ 31 - 1) sy

-- The number of a match: 0 without one, and `none` where `unwrap` panics.
unfoldable pub number_of : Option Match → Option ℕ
unfolding parse_i32
number_of none = some 0
number_of (some m) = parse_i32 (split_at 5 m.text)

end_of : Option Match → ℕ
end_of none = 0
end_of (some m) = m.ends

-- Where the text begins: behind the last match and two bytes more.
unfoldable pub text_start : Option Match → Option Match → ℕ
unfolding end_of
text_start en fn = let end = max (end_of en) (end_of fn) in if ltb 0 end then end + 2 else end

-- The message with the file's number and the error's.
unfoldable pub alert : Option ℕ → Option ℕ → Option (Text × Text) → Option LogMessage
alert (some errno) (some fino) (some (l, errmsg)) = some (record message_default {
  is_error = true;
  message = some errmsg;
  code = some (pos fino ∷ pos errno ∷ []);
})
alert none fino split = none
alert (some errno) none split = none
alert (some errno) (some fino) none = none

-- The message that `parse_error` sends.
unfoldable pub parse_error : Text → Option LogMessage
unfolding find number_of text_start alert
parse_error errmsg =
    let en = find b'e' 0 errmsg in
    let fn = find b'f' 0 errmsg in
    alert (number_of en) (number_of fn) (split_at (text_start en fn) errmsg)

abbrev pub message_list : LogMessage → LogList
message_list m = record { messages = some (m ∷ []) }

-- What the thread for libdtn's messages does.
pub data Act : Type 0 where
  debugs : Text → Act
  informs : Text → Act
  sends : LogList → Act
  reports : Text → Act
  prints : Text → Act
  sleeps : Act

-- What `dtn_log_getnext` and `dtn_err_getnext` give: a line, or bytes that are no UTF-8.
pub data Next : Type 0 where
  no_line : Next
  line : Text → Next
  undecoded : Next

-- `format!( "[C] {} ", b)`
c_line : Text → Text
c_line b = codes "[C] " ++ (b ++ b' ' ∷ [])

of_log : Option (Text × Text) → Option (List Act)
unfolding c_line contains
of_log none = none
of_log (some (a, b)) =
    some
      ((if contains (codes "[DBG]") a then debugs (c_line b) else informs (b' ' ∷ c_line b)) ∷ [])

unfoldable pub say_error : Text → List Act
unfolding c_line
say_error b = reports (c_line b) ∷ prints (codes "ERROR: " ++ c_line b) ∷ []

unfoldable pub pass_on : Text → Option LogMessage → Option (List Act)
unfolding say_error
pass_on b none = none
pass_on b (some m) = some (sends (message_list m) ∷ say_error b)

-- An error goes to the sender, too, if this is the receiver.
unfoldable pub of_err : Bool → Option (Text × Text) → Option (List Act)
unfolding pass_on say_error
of_err do_server none = none
of_err true (some (a, b)) = pass_on b (parse_error b)
of_err false (some (a, b)) = some (say_error b)

-- `d.split_at(6)` of the trimmed line.
unfoldable pub head_and_text : Text → Option (Text × Text)
head_and_text d = split_at 6 (trim d)

unfoldable pub err_turn : Bool → Next → Option (List Act)
unfolding of_err head_and_text
err_turn do_server no_line = some (sleeps ∷ [])
err_turn do_server (line d) = of_err do_server (head_and_text d)
err_turn do_server undecoded = of_err do_server (head_and_text (codes "Error decoding message"))

-- A turn of `initialize_clog`: a line of the log, else an error, else a pause. `none` is a panic.
unfoldable pub clog_turn : Bool → Next → Next → Option (List Act)
unfolding of_log of_err say_error pass_on head_and_text err_turn
clog_turn do_server no_line err = err_turn do_server err
clog_turn do_server (line d) err = of_log (head_and_text d)
clog_turn do_server undecoded err = of_log (head_and_text (codes "Error decoding message"))
