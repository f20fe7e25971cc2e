-- ===== src/Sender/Transfer/Tests.antt =====
-- A transfer of two files, confirmed in one message.
use escp.Base.{ℕ, refl, List, [], ◌∷◌, codes, empty_map, true, false, some, arith}
use escp.Base.Int.{pos}
use escp.Header.{msg_file_stat}
use escp.Wire.FileSpec.{file_default, FileList, file_list_default}
use escp.Sender.Check.{Arrival, got}
use escp.Sender.Batch.{Stat, Entry, Received, entry, timed_out, closed}
use escp.Sender.Batch.Gather.{entries}
use escp.Sender.Batch.Numbering.{times}
use escp.Sender.Finish.{Inbox, silence, message}
use escp.Sender.Finish.Confirmed.{all_files}
use escp.Sender.Rounds.{start}
use escp.Sender.Rounds.Kept.{IsWhole}
use escp.Sender.Transfer.{Tick, send_all}
use escp.Sender.Transfer.Truthful.{IsTruthful, send_all-IsTruthful}

-- The checksum of each file is 7.
abbrev seven : ℕ → ℕ
seven k = 7

abbrev stat : Stat
stat = record {
  st_size = pos 10;
  st_mode = 420;
  st_uid = 0;
  st_gid = 0;
  atim_sec = pos 0;
  atim_nano = pos 0;
  mtim_sec = pos 0;
  mtim_nano = pos 0;
}

abbrev file : ℕ → Entry
file k = record { fi = codes "f"; fino = k; st = stat }

abbrev channel : List Received
channel = entry (file 2) ∷ timed_out ∷ entry (file 1) ∷ closed ∷ []

channel-IsWhole : IsWhole (entries channel)
unfolding times
channel-IsWhole k = ground arith

abbrev report : FileList
report = record file_list_default {
  files =
      some (
        record file_default { fino = 2; crc = 7 } ∷ record file_default { fino = 1; crc = 7 } ∷ []);
}

abbrev inbox : List Inbox
inbox = silence ∷ silence ∷ message msg_file_stat report ∷ []

abbrev arrivals : List Arrival
arrivals = got 1 7 ∷ got 2 7 ∷ []

abbrev ticks : List Tick
ticks = record { late = false; bytes_now = pos 5 } ∷ record { late = true; bytes_now = pos 20 } ∷ []

IsTruthful-example :
    IsTruthful seven true
      (entries channel)
      (all_files inbox)
      (send_all true false false (codes "/d") 4 ticks (start empty_map channel inbox arrivals))
IsTruthful-example =
    send_all-IsTruthful seven (λ k. omega arith) true false false (codes "/d") 4 ticks empty_map
      channel inbox arrivals (λ k. tt) (refl, (refl, tt)) tt channel-IsWhole (omega arith)
