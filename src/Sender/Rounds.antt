-- ===== src/Sender/Rounds.antt =====
-- The loop of `iterate_files` (src/escp/sender.rs): rounds that receive opened files, look for a message
-- of the receiver when none comes in time, and announce.
pub mod Kept
pub mod Telling
pub mod Closing
pub mod Turns
pub mod Complete
pub mod EndToEnd
mod Tests
use escp.Base.{
  ℕ, zero, suc, Bool, true, false, List, [], ◌∷◌, ◌++◌, Option, none, some, Text, ltb,
  if◌then◌else◌,
}
use escp.Wire.FileSpec.{FileList}
use escp.Base.Int.{pos}
use escp.Sender.Check.{Checksums, Arrival}
use escp.Sender.Batch.{Batcher, Received, collect, announce}
use escp.Sender.Finish.{
  Inbox, silence, FileCheck, goes_on, bad, process_exits, process_panics, waits_for_checksum,
  file_check,
}

-- The variables of the loop, the messages sent, and what is to come: what `msg_out` gives, what
-- `meta_recv` gives to each call of `file_check`, and what `fc_out` gives.
pub record Round : Type 0 where
  pub batch : Batcher
  pub files_ok : ℕ
  pub out : List FileList
  pub channel : List Received
  pub inbox : List Inbox
  pub arrivals : List Arrival

-- How a round ends: the next one begins; the loop is left; or `file_check` did not go on, and the
-- process ends or still waits.
pub data Turn : Type 0 where
  goes : Round → Turn
  leaves : Round → Turn
  stops : FileCheck → Turn

unfoldable pub leave_if : Bool → Round → Turn
leave_if true r = leaves r
leave_if false r = goes r

-- With files in the queue and none of them next, the loop continues without a look at `do_break`.
unfoldable pub told : Round → Batcher × Option FileList → Turn
unfolding leave_if
told r (s, some m) = leave_if s.do_break (record r { batch = s; out = r.out ++ m ∷ [] })
told r (s, none) =
    if ltb 0 r.batch.counter
    then goes (record r { batch = s })
    else leave_if s.do_break (record r { batch = s })

unfoldable pub tell : Bool → Text → Round → Turn
unfolding told
tell preserve dest_path r = told r (announce preserve dest_path r.batch)

unfoldable pub first_message : List Inbox → Inbox
first_message [] = silence
first_message (m ∷ ms) = m

unfoldable pub other_messages : List Inbox → List Inbox
other_messages [] = []
other_messages (m ∷ ms) = ms

-- Every result of `file_check` but 1 ends the process with "Exiting because of CRC mismatch".
unfoldable pub heard : (Round → Turn) → Round → FileCheck → Turn
unfolding other_messages
heard next r (goes_on hm ok arrivals) = next (record r {
  batch = record r.batch { fc_hash = hm };
  files_ok = ok;
  arrivals = arrivals;
  inbox = other_messages r.inbox;
})
heard next r bad = stops bad
heard next r process_exits = stops process_exits
heard next r process_panics = stops process_panics
heard next r waits_for_checksum = stops waits_for_checksum

unfoldable pub listen : (Round → Turn) → Round → Turn
unfolding heard first_message
listen next r =
    heard next r (file_check (first_message r.inbox) r.batch.fc_hash r.files_ok r.arrivals)

unfoldable pub received : (Round → Turn) → Round → Batcher × List Received × Bool → Turn
unfolding listen
received next r (s, rest, true) = listen next (record r { batch = s; channel = rest })
received next r (s, rest, false) = next (record r { batch = s; channel = rest })

-- One turn of the loop; feeding the file workers and the progress are left out.
unfoldable pub turn : Bool → Text → Round → Turn
unfolding received tell
turn preserve dest_path r = received (tell preserve dest_path) r (collect r.channel r.batch)

unfoldable pub after : (Round → Turn) → Turn → Turn
after again (goes r) = again r
after again (leaves r) = leaves r
after again (stops c) = stops c

-- So many turns at most; `goes` at the end means that they were not enough.
unfoldable pub rounds : Bool → Text → ℕ → Round → Turn
unfolding after turn
rounds preserve dest_path zero r = goes r
rounds preserve dest_path (suc n) r =
    after (rounds preserve dest_path n) (turn preserve dest_path r)

-- The loop begins with empty variables, but the checksums that are known already.
unfoldable pub start : Checksums → List Received → List Inbox → List Arrival → Round
start fc_hash channel inbox arrivals = record {
  batch = record {
    vec = [];
    counter = 0;
    counter_max = 8;
    files_sent = 0;
    files_total = 0;
    bytes_total = pos 0;
    fc_hash = fc_hash;
    do_break = false;
  };
  files_ok = 0;
  out = [];
  channel = channel;
  inbox = inbox;
  arrivals = arrivals;
}
