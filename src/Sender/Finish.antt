-- ===== src/Sender/Finish.antt =====
-- The end of `escp_sender` (src/escp/sender.rs): the wait for the receiver's confirmations.
pub mod Confirmed
use escp.Base.{ℕ, ◌+◌, Bool, true, false, List, [], ◌∷◌, Option, none, some, leb, if◌then◌else◌}
use escp.Wire.FileSpec.{FileList}
use escp.Sender.Check.{
  Checksums, Arrival, Outcome, checked, mismatch, disconnected, exits, panics, waits,
  handle_msg_from_receiver,
}

-- What `meta_recv` gives to `file_check`: nothing, or a message of a type with a table.
pub data Inbox : Type 0 where
  silence : Inbox
  message : ℕ → FileList → Inbox

-- How `file_check` ends: with 1 and the new state, with 0, or not at all.
pub data FileCheck : Type 0 where
  goes_on : Checksums → ℕ → List Arrival → FileCheck
  bad : FileCheck
  process_exits : FileCheck
  process_panics : FileCheck
  waits_for_checksum : FileCheck

-- A negative result of `handle_msg_from_receiver` becomes 0.
unfoldable pub by_outcome : Outcome → FileCheck
by_outcome (checked hm ok arrivals) = goes_on hm ok arrivals
by_outcome (mismatch k) = bad
by_outcome disconnected = bad
by_outcome exits = process_exits
by_outcome panics = process_panics
by_outcome waits = waits_for_checksum

-- With no message, block counts are sent and the time is waited for, which changes nothing here.
unfoldable pub file_check : Inbox → Checksums → ℕ → List Arrival → FileCheck
unfolding by_outcome
file_check silence hm ok arrivals = goes_on hm ok arrivals
file_check (message t body) hm ok arrivals =
    by_outcome (handle_msg_from_receiver t body hm ok arrivals)

-- How the wait ends: the session is complete with so many files confirmed; a checksum differs, and the
-- process exits; it ended in `file_check`; or it still waits when the inbox is used up.
pub data Finale : Type 0 where
  completes : ℕ → Finale
  fails : Finale
  ended : Finale
  still_waits : Finale

unfoldable pub after_check : (Checksums → ℕ → List Arrival → Finale) → FileCheck → Finale
after_check again (goes_on hm ok arrivals) = again hm ok arrivals
after_check again bad = fails
after_check again process_exits = ended
after_check again process_panics = ended
after_check again waits_for_checksum = still_waits

-- The loop until `files_ok >= files_total`; then `msg_session_complete` is sent. The loop before it,
-- with the progress, makes the same checks.
unfoldable pub await_all : ℕ → List Inbox → Checksums → ℕ → List Arrival → Finale
unfolding file_check after_check
await_all total [] hm ok arrivals = if leb total ok then completes ok else still_waits
await_all total (m ∷ ms) hm ok arrivals =
    let rest = after_check (await_all total ms) (file_check m hm ok arrivals) in
    if leb total ok then completes ok else rest
