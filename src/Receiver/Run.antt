-- ===== src/Receiver/Run.antt =====
-- Runs of the receiver's main loop: turns until it ends, or as many as the world answers.
use escp.Base.{ℕ, ◌+◌, ◌≡◌, Bool, true, List, [], ◌∷◌, ◌++◌, length}
use escp.Receiver.State.{receiver_start}
use escp.Receiver.Opening.Answers.{slots}
use escp.Receiver.Loop.{World, Output, Loop, Turn, goes_on, finished, exits, panics, turn}
use escp.Receiver.Loop.Accounts.{reported}

-- How a run ends, with the messages sent: the loop was left, it still goes, or the process ended.
pub data Course : Type 0 where
  left : Loop → List Output → Course
  going : Loop → List Output → Course
  exited : Course
  panicked : Course

after_turn : (Loop → List Output → Course) → List Output → Turn → Course
after_turn next out (goes_on s o) = next s (out ++ o)
after_turn next out (finished s o) = left s (out ++ o)
after_turn next out exits = exited
after_turn next out panics = panicked

pub run : (ℕ → ℕ) → List World → Loop → List Output → Course
run grow [] s out = going s out
run grow (w ∷ ws) s out = after_turn (run grow ws) out (turn grow w s)

-- The loop's variables when it is entered.
abbrev pub loop_start : Bool → Loop
loop_start nodirect = record {
  receiver = receiver_start;
  io = record { nodirect = nodirect; calls = 0; log = [] };
  timeout = 100;
}

-- As many files were closed as are reported or wait. When the loop was left, the sender has said that
-- it is done, and the files that libdtn has taken are as many.
abbrev pub Balances : Course → Type 0
Balances (left s out) =
    (s.receiver.transfer_complete ≡ true)
    × (length (slots s.io.log) ≡ reported out + length s.receiver.files_complete)
Balances (going s out) =
    (s.receiver.file_count_out ≡ reported out + length s.receiver.files_complete)
    × (s.receiver.file_count_in ≡ length (slots s.io.log))
Balances exited = Unit
Balances panicked = Unit
