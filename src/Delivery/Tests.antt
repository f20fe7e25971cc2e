-- ===== src/Delivery/Tests.antt =====
-- The walk on the small disk, and what the receiver makes of it; and a report of the receiver.
use escp.Base.{ℕ, inr, refl, true, List, [], ◌∷◌, codes, empty_map, some, arith}
use escp.Header.{msg_file_stat}
use escp.Receiver.State.{FileInformation, info_default}
use escp.Sender.Check.{Arrival, got}
use escp.Sender.Check.Truth.{here, there}
use escp.Sender.Finish.{message, file_check}
use escp.Receiver.Completions.{file_stat, stat_message, send_file_completions, drain}
use escp.Wire.FileSpec.{FileList, file_list_default}
use escp.Wire.FileSpec.ListTable.{create_file_list, read_file_list}
use escp.Delivery.Reports.{Accepted, report-Accepted}
use escp.Wire.Flat.{Flatbuffers, Push, found}
use escp.Sender.Batch.{Received, entry, timed_out, closed}
use escp.Sender.Rounds.{rounds, start}
use escp.Sender.Walk.Example.{
  tree, disk, the_dir, the_entry, at_end, disk-Shows, run, at_end-Finished,
}
use escp.Delivery.{Zstd}
use escp.Delivery.Whole.{EndsDelivered, walk-Delivered}

abbrev kept : Flatbuffers
kept = record {
  Table = λ E. List (Push E);
  end_table = λ ps. ps;
  get = λ t s o. found s o t;
  get-end_table = λ ps s o d. refl;
}

abbrev walked : List Received
walked = timed_out ∷ entry the_entry ∷ closed ∷ []

abbrev packing : Zstd
packing = record { len = λ m. 200; compresses = λ m. true; decompresses = λ m. true }

delivered_example :
    EndsDelivered kept Unit packing true
      (codes "/d")
      disk
      tree
      true
      (the_dir ∷ [])
      []
      (rounds true (codes "/d") 3 (start empty_map walked [] []))
delivered_example =
    walk-Delivered kept Unit packing true (codes "/d") disk tree true disk-Shows 3 (the_dir ∷ [])
      at_end empty_map walked [] [] run at_end-Finished refl tt (omega arith)

-- The checksum of each file is 7.
abbrev seven : ℕ → ℕ
seven k = 7

abbrev finished : List FileInformation
finished =
    record info_default { fino = 1; crc = 7 } ∷ record info_default { fino = 2; crc = 7 } ∷ []

abbrev arrivals : List Arrival
arrivals = got 1 7 ∷ got 2 7 ∷ []

-- The last file of the vector comes first.
abbrev report : FileList
report = record file_list_default {
  files = some (
      file_stat (record info_default { fino = 2; crc = 7 })
      ∷ file_stat (record info_default { fino = 1; crc = 7 })
      ∷ []);
  fc_stat = true;
}

Accepted-example : Accepted finished report [] 0 (
    file_check
      (message msg_file_stat (read_file_list kept (create_file_list kept {E = Unit} report)))
      empty_map
      0
      arrivals)
unfolding send_file_completions stat_message drain
Accepted-example =
    report-Accepted kept Unit seven (λ k. omega arith) finished [] report empty_map 0 arrivals refl
      (((λ q. omega arith), tt), (tt, tt))
      ((refl, inr (here refl)), ((refl, inr (there (here refl))), tt)) (λ k. tt) (refl, (refl, tt))
      (tt, (tt, tt))
