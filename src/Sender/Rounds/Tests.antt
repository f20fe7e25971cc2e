-- ===== src/Sender/Rounds/Tests.antt =====
-- Rounds over a channel with two files that overtook each other.
use escp.Base.{ℕ, true, List, [], ◌∷◌, codes, empty_map, arith}
use escp.Sender.Batch.{Entry, Received, entry, timed_out, closed}
use escp.Sender.Batch.Gather.{entries}
use escp.Sender.Batch.Numbering.{times}
use escp.Sender.Finish.{silence}
use escp.Sender.Rounds.{rounds, start}
use escp.Sender.Rounds.Kept.{IsWhole}
use escp.Sender.Rounds.Complete.{Ends, rounds-AllAnnounced}
use escp.Sender.Walk.Example.{stat_of}

abbrev numbered : ℕ → Entry
numbered k = record { fi = codes "f"; fino = k; st = stat_of 33188 }

abbrev channel : List Received
channel = entry (numbered 2) ∷ timed_out ∷ entry (numbered 1) ∷ closed ∷ []

channel-IsWhole : IsWhole (entries channel)
unfolding times
channel-IsWhole k = ground arith

all_announced_example :
    Ends true
      (entries channel)
      (silence ∷ [])
      (rounds true (codes "/d") 4 (start empty_map channel (silence ∷ []) []))
all_announced_example =
    rounds-AllAnnounced true (codes "/d") 4 empty_map channel (silence ∷ []) [] tt channel-IsWhole
      (omega arith)
