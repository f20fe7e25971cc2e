-- ===== src/Sender/Alerts.antt =====
-- `handle_msg_from_receiver` of src/escp/sender.rs on a message of type `msg_message`.
use escp.Base.{Bool, true, false, List, [], ◌∷◌, Option, none, some, Text}
use escp.Base.Int.{ℤ, as_u64, as_i32}
use escp.Sender.Check.{Checksums}
use escp.Wire.LogMessage.{LogMessage}
use escp.Wire.LogList.{LogList}

-- What is printed for a message: its text, and if it has two codes, the file's name and the error.
pub data Shown : Type 0 where
  of_file : Text → Text → ℤ → Shown
  plain : Text → Shown

-- What was printed before the process ended, and whether it panicked; else it exits with 1.
pub record Display : Type 0 where
  pub shown : List Shown
  pub panicked : Bool

unfoldable pub panic : Display
panic = record { shown = []; panicked = true }

unfoldable pub print : Shown → Display → Display
print x d = record d { shown = x ∷ d.shown }

-- `baz` keeps the name of the message before if the file is not known.
abbrev pub name_or : Text → Option (ℤ × Text) → Text
name_or baz none = baz
name_or baz (some (c, name)) = name

-- One message; `next` goes on with the name so far.
unfoldable pub show_one :
    (Text → Display) → Checksums → Text → Option (List ℤ) → Option Text → Display
unfolding panic print
show_one next hm baz none m = panic
show_one next hm baz (some v) none = panic
show_one next hm baz (some []) (some m) = print (plain m) (next baz)
show_one next hm baz (some (f ∷ [])) (some m) = print (plain m) (next baz)
show_one next hm baz (some (f ∷ e ∷ v)) (some m) =
    let name = name_or baz (hm (as_u64 f)) in print (of_file m name (as_i32 (as_u64 e))) (next name)

unfoldable pub show_each : Checksums → List LogMessage → Text → Display
unfolding show_one
show_each hm [] baz = record { shown = []; panicked = false }
show_each hm (i ∷ is) baz = show_one (show_each hm is) hm baz i.code i.message

unfoldable pub show_messages : Checksums → Option (List LogMessage) → Display
unfolding panic show_each
show_messages hm none = panic
show_messages hm (some is) = show_each hm is []

-- The branch for messages; the process ends in any case.
unfoldable pub show_list : Checksums → LogList → Display
unfolding show_messages show_each
show_list hm l = show_messages hm l.messages
