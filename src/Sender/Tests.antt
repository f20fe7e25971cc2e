-- ===== src/Sender/Tests.antt =====
-- Inputs at which the theorems about the sender are applied.
use escp.Base.{
  ℕ, refl, [], ◌∷◌, List, codes, empty_map, insert, true, false, inl, inr, arith, ◌==◌, Bool-cases,
}
use escp.Base.Int.{pos, negsuc}
use escp.Wire.FileSpec.{File, file_default}
use escp.Sender.Check.{Checksums, Arrival, got, timed_out, check_files, is_empty_file}
use escp.Sender.Check.Truth.{here, there, HonestMap, Verdict, check_files-Verdict}
use escp.Sender.Check.Confirms.{Confirmed, check_files-Confirmed}
use escp.Sender.Batch.{Stat, Entry, Batcher, announce}
use escp.Sender.Batch.InOrder.{IsQueue, Announced, announce-Announced}
use escp.Sender.Completions.{send_file_complete, taken, Tells, send_file_complete-Tells}
use escp.Sender.Workers.{
  Workers, receiving, quiet, put, mark, check, take_file, Steps, times_out, marks, checks, done,
  then_steps,
}
use escp.Sender.Workers.Exit.{NobodyLeaves, take_file-NobodyLeaves}
use escp.Sender.Completions as Completions

-- The checksum of file `k` is 7 in this transfer.
abbrev seven : ℕ → ℕ
seven k = 7

abbrev reports : List File
reports =
    record file_default { fino = 2; crc = 7 }
    ∷ file_default
    ∷ record file_default { fino = 1; crc = 7 }
    ∷ []

abbrev waiting : Checksums
waiting = insert 1 (negsuc 0, codes "a") empty_map

abbrev channel : List Arrival
channel = got 1 7 ∷ timed_out ∷ got 2 7 ∷ []

waiting-HonestMap : HonestMap seven waiting
waiting-HonestMap k = elim (Bool-cases (1 == k)) [ inl q ↦ rw q refl | inr q ↦ rw q tt ]

Verdict-example : Verdict seven reports 0 (check_files reports waiting 0 channel)
Verdict-example =
    check_files-Verdict seven (λ k. omega arith) reports waiting 0 channel waiting-HonestMap
      (refl, (tt, (refl, tt)))

Confirmed-example : Confirmed (check_files reports waiting 0 channel)
unfolding is_empty_file
Confirmed-example =
    check_files-Confirmed seven (λ k. omega arith) reports waiting 0 channel waiting-HonestMap
      (refl, (tt, (refl, tt))) (tt, (tt, (tt, tt)))
      (((λ q. omega arith), ((λ q. omega arith), tt)), (((λ q. omega arith), tt), (tt, tt)))
      (inr refl, (inl refl, (inr refl, tt)))
      (
        (refl, inr (inr (there (there (here refl))))),
        ((refl, inl refl), ((refl, inr (inr (here refl))), tt)),
      )

abbrev stat : Stat
stat = record {
  st_size = pos 10;
  st_mode = 420;
  st_uid = 0;
  st_gid = 0;
  atim_sec = pos 0;
  atim_nano = pos 0;
  mtim_sec = pos 0;
  mtim_nano = pos 0;
}

abbrev file : ℕ → Entry
file k = record { fi = codes "f"; fino = k; st = stat }

-- Files 4, 6 and 3 wait, and 2 are announced.
abbrev batcher : Batcher
batcher = record {
  vec = file 4 ∷ file 6 ∷ file 3 ∷ [];
  counter = 3;
  counter_max = 8;
  files_sent = 2;
  files_total = 5;
  bytes_total = pos 50;
  fc_hash = empty_map;
  do_break = false;
}

batcher-IsQueue : IsQueue batcher
batcher-IsQueue = record {
  counted = refl;
  once = (((λ q. omega arith), ((λ q. omega arith), tt)), (((λ q. omega arith), tt), (tt, tt)));
  ahead = (omega arith, (omega arith, (omega arith, tt)));
}

Announced-example : Announced true (codes "/d") batcher (announce true (codes "/d") batcher)
Announced-example = announce-Announced true (codes "/d") batcher batcher-IsQueue

abbrev finished : List Completions.Received
finished = Completions.got (3, 2) ∷ Completions.got (1, 5) ∷ Completions.timed_out ∷ []

completions_sent_example : Tells (taken 2601 finished) (send_file_complete finished)
completions_sent_example = send_file_complete-Tells finished

-- Worker 0 is ready to exit and back at its channel; the other three receive.
abbrev one_ready : Workers
one_ready = record {
  tail = 1;
  cleanup = 1;
  mask = λ k. k == 0;
  exit_ready = λ k. k == 0;
  place = λ k. receiving;
}

-- After worker 0 has taken a file, worker 1 times out, sets its bit and looks at the mask.
abbrev timed : Workers
timed = record (take_file 0 one_ready) { place = put 1 quiet (take_file 0 one_ready).place }

one_round : Steps (take_file 0 one_ready) (check 1 (mark 1 timed))
unfolding take_file mark
one_round = then_steps (times_out 1 (take_file 0 one_ready) (omega arith) refl refl) (
    then_steps (marks 1 timed (omega arith) refl)
      (then_steps (checks 1 (mark 1 timed) (omega arith) refl) (done (check 1 (mark 1 timed)))))

NobodyLeaves-example : NobodyLeaves one_ready (check 1 (mark 1 timed))
NobodyLeaves-example =
    take_file-NobodyLeaves 0 one_ready (check 1 (mark 1 timed)) (omega arith) refl one_round
