-- ===== src/Receiver/Tests.antt =====
-- Inputs at which the theorems about the receiver are applied.
use escp.Receiver.Checksums.{Cksum, Storage, cksum_worker, cksum_start, Stores, cksum_worker-start}
use escp.Base.{
  List, arith, ◌-◌, ◌*◌, ◌≡◌, refl, true, false, [], ◌∷◌, none, some, codes, HashMap, empty_map,
  insert,
}
use escp.Base.Int.{pos}
use escp.Wire.FileSpec.{File, file_default}
use escp.Receiver.State.{FileInformation, info_default, receiver_start}
use escp.Receiver.Entries.{handle_file_spec}
use escp.Receiver.Order.{◌>>=◌, spec_message, completion_message, handle_file_spec_comm}
use escp.Str.Paths.{no_parent}
use escp.Receiver.Opening.{Env, Io, Added, add_file, adds, opened, failed, enoent}
use escp.Receiver.Opening.Outcome.{Report, add_file-Report}
use escp.Receiver.Opening.Total.{Known, add_file_returns, Unmoved, add_file-NeverFound}
use escp.Receiver.Closing.{Stats, Closed, close_file, finish, unfinished}
use escp.Receiver.Closing.Outcome.{close_file-Report}
use escp.Receiver.Closing.Outcome.{Report as Finishes}
use escp.Receiver.Loop.{Loop, World}

abbrev spec : File
spec = record file_default { fino = 1; name = some (codes "a"); sz = pos 10; mode = 420 }

abbrev completion : File
completion = record file_default { fino = 1; blocks = pos 2 }

order_example :
    (handle_file_spec (completion_message (completion ∷ [])) receiver_start
      >>= handle_file_spec (spec_message (codes "/d") (spec ∷ []) false))
    ≡ (handle_file_spec (spec_message (codes "/d") (spec ∷ []) false) receiver_start
        >>= handle_file_spec (completion_message (completion ∷ [])))
order_example =
    handle_file_spec_comm (codes "/d") (spec ∷ []) (completion ∷ []) false receiver_start

abbrev info : FileInformation
info = record info_default { path = codes "/d/a"; fino = 1; sz = pos 10; blocks = pos 2 }

abbrev one_file : HashMap FileInformation
one_file = insert 1 info empty_map

-- Every path opens as descriptor 5; every call of `file_addfile` finds a slot.
abbrev calm : Env
calm = record {
  open_file = λ n p d. opened 5;
  has_slot = λ n. true;
  stale_errno = λ n. 0;
  do_preserve = true;
}

-- Nothing can be opened.
abbrev barren : Env
barren = record {
  open_file = λ n p d. failed enoent;
  has_slot = λ n. true;
  stale_errno = λ n. 0;
  do_preserve = false;
}

abbrev io_start : Io
io_start = record { nodirect = false; calls = 0; log = [] }

one_file-Known : Known one_file 1
unfolding no_parent
one_file-Known = (info, refl, refl)

returns_example : (a : Added) × (add_file calm (1 ∷ []) io_start one_file 0 ≡ some a)
returns_example = add_file_returns calm (1 ∷ []) io_start one_file 0 (one_file-Known, tt)

opening_example : Report calm (1 ∷ []) io_start one_file 0 (returns_example.0)
opening_example =
    add_file-Report calm (1 ∷ []) io_start one_file 0 (returns_example.0) (returns_example.1)

never_found_example :
    Unmoved 1 (2 ∷ []) one_file 0 (add_file barren (1 ∷ 2 ∷ []) io_start one_file 0)
never_found_example =
    add_file-NeverFound barren 1 (2 ∷ []) io_start one_file 0 (λ n p d. refl) one_file-Known

abbrev written : HashMap Stats
written = insert 1 (record { block_total = 2; crc = 77 }) empty_map

closed_one : (c : Closed) × (close_file false (1 ∷ 2 ∷ []) written one_file [] [] ≡ some c)
unfolding close_file finish unfinished
closed_one = (_, refl)

closing_example : Finishes false (1 ∷ 2 ∷ []) written one_file [] [] (closed_one.0)
closing_example =
    close_file-Report false (1 ∷ 2 ∷ []) written one_file [] [] (closed_one.0) (closed_one.1)

abbrev loop : Loop
loop = record {
  receiver = record receiver_start {
    files_hash = one_file;
    files_close = 1 ∷ [];
    file_count_in = 1;
    transfer_complete = true;
  };
  io = record io_start { calls = 1; log = adds 1 5 true ∷ [] };
  timeout = 100;
}

abbrev world : World
world = record { env = calm; stats = written; inbox = none; workers_done = false }

-- Two files take turns.
abbrev blocks : List Cksum
blocks =
    record { fino = 1; data_ = 10 }
    ∷ record { fino = 2; data_ = 20 }
    ∷ record { fino = 1; data_ = 11 }
    ∷ []

-- The last block cannot be written.
abbrev full_disk : Storage
full_disk = record { opens = λ n. true; writes = λ n. 24 * (2 - n) }

checksums_example :
    Stores full_disk 0 blocks (λ k. []) (cksum_worker full_disk 0 blocks (cksum_start (λ k. [])))
checksums_example =
    cksum_worker-start full_disk blocks (λ k. [])
      ((λ q. omega (arith, q)), ((λ q. omega (arith, q)), ((λ q. omega (arith, q)), tt)))
