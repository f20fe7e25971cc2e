-- ===== src/Sender/Transfer.antt =====
-- `escp_sender` (src/escp/sender.rs) from the moment that the session is established: the files are
-- announced, the progress is shown, the confirmations are waited for, and the session is completed.
pub mod Keeping
pub mod Truthful
mod Tests
use escp.Base.{
  ℕ, Bool, true, false, not, ◌&&◌, ◌||◌, List, [], ◌∷◌, ◌++◌, map, Text, leb, ◌==◌, if◌then◌else◌,
}
use escp.Base.Int.{ℤ, pos, ltb_ℤ}
use escp.Wire.FileSpec.{FileList}
use escp.Sender.Finish.{
  Inbox, silence, FileCheck, Finale, completes, fails, ended, still_waits, await_all,
}
use escp.Sender.Rounds.{Round, Turn, goes, leaves, stops, listen, after, rounds}

-- What a turn of the progress loop sees: the last line is more than 0.2 s old, and the bytes sent.
pub record Tick : Type 0 where
  pub late : Bool
  pub bytes_now : ℤ

unfoldable pub over : ℕ → ℤ → ℤ → ℕ → Bool
over files_total bytes_total bytes_now files_ok =
    not (ltb_ℤ bytes_now bytes_total) || leb files_total files_ok

-- The loop is left behind the line that it prints.
unfoldable pub shown : Tick → Round → Turn
unfolding over
shown tick r =
    let done = over r.batch.files_total r.batch.bytes_total tick.bytes_now r.files_ok in
    if tick.late || done then (if done then leaves r else goes r) else goes r

-- The loop, with what each turn sees; the lines themselves are left out.
unfoldable pub progress : List Tick → Round → Turn
unfolding shown after listen
progress [] r = goes r
progress (tick ∷ ticks) r = after (progress ticks) (listen (shown tick) r)

-- With `--quiet` the loop is left at once.
unfoldable pub show_progress : Bool → List Tick → Round → Turn
unfolding progress
show_progress true ticks r = leaves r
show_progress false ticks r = progress ticks r

-- What the receiver is sent, and how it ends: complete, with so many files confirmed; with "Nothing to
-- transfer"; in `file_check`; or it still runs when the answers are used up.
pub data Sending : Type 0 where
  complete : Round → ℕ → Sending
  nothing_to_transfer : Sending
  checked_out : FileCheck → Sending
  failed : Finale → Sending
  running : Sending

unfoldable pub at_finale : Round → Finale → Sending
at_finale r (completes n) = complete r n
at_finale r fails = failed fails
at_finale r ended = failed ended
at_finale r still_waits = failed still_waits

unfoldable pub confirm : Turn → Sending
unfolding at_finale
confirm (goes r) = running
confirm (stops c) = checked_out c
confirm (leaves r) =
    at_finale r (await_all r.batch.files_total r.inbox r.batch.fc_hash r.files_ok r.arrivals)

-- Nothing was found, and the engine needs files.
unfoldable pub is_idle : Bool → Round → Bool
is_idle shmem r = not (ltb_ℤ (pos 0) r.batch.bytes_total) && (r.batch.files_total == 0) && not shmem

unfoldable pub after_rounds : Bool → Bool → List Tick → Turn → Sending
unfolding show_progress confirm is_idle
after_rounds quiet shmem ticks (goes r) = running
after_rounds quiet shmem ticks (stops c) = checked_out c
after_rounds quiet shmem ticks (leaves r) =
    if is_idle shmem r then nothing_to_transfer else confirm (show_progress quiet ticks r)

-- The flags `preserve`, `quiet` and "the engine is shmem"; the root; the rounds at most.
unfoldable pub send_all : Bool → Bool → Bool → Text → ℕ → List Tick → Round → Sending
unfolding after_rounds
send_all preserve quiet shmem dest_path n ticks r =
    after_rounds quiet shmem ticks (rounds preserve dest_path n r)

-- The messages, in their order; block counts are left out.
pub data Message : Type 0 where
  file_spec : FileList → Message
  session_complete : Message

unfoldable pub complete_messages : Round → List Message
complete_messages r = map file_spec r.out ++ session_complete ∷ []

-- The wait for the ACK: any message ends it.
unfoldable pub acknowledged : List Inbox → Bool
acknowledged [] = false
acknowledged (silence ∷ inbox) = acknowledged inbox
acknowledged (Inbox.message t body ∷ inbox) = true
