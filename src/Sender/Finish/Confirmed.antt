-- ===== src/Sender/Finish/Confirmed.antt =====
-- The session is called complete only with all files confirmed.
use Prim.Native.Nat.{bit_and}
use escp.Base.{
  ℕ, ◌+◌, ◌<◌, ◌≤◌, ◌^◌, ◌≡◌, refl, ap, ◌∙◌, inl, inr, true, List, [], ◌∷◌, ◌++◌, append_assoc,
  Option, none, some, length, length-append, All, All-append, leb, ◌==◌, if◌then◌else◌, arith,
  Bool-cases,
}
use escp.Header.{msg_file_stat, msg_keepalive, msg_message}
use escp.Wire.FileSpec.{File}
use escp.Sender.Check.{
  Checksums, Arrival, Outcome, checked, mismatch, disconnected, exits, panics, waits, check_files,
  check_list, handle_msg_from_receiver,
}
use escp.Sender.Check.Truth.{HonestMap, HonestArrival, Agrees, Verdict, check_files-Verdict}
use escp.Sender.Finish.{
  Inbox, silence, message, FileCheck, goes_on, bad, process_exits, process_panics,
  waits_for_checksum, by_outcome, file_check, Finale, completes, fails, ended, still_waits,
  after_check, await_all,
}

-- The files that a message of the receiver is about.
abbrev pub or_none : Option (List File) → List File
or_none none = []
or_none (some es) = es

abbrev pub files_of : Inbox → List File
files_of silence = []
files_of (message t body) = if t == msg_file_stat then or_none body.files else []

abbrev pub all_files : List Inbox → List File
all_files [] = []
all_files (m ∷ ms) = files_of m ++ all_files ms

-- The files confirmed: those of a front part of the messages, each with the checksum of the bytes
-- that were sent or as an empty file, and as many as the total at least.
pub record Confirms (crc_of : ℕ → ℕ) (total ok n : ℕ) (files : List File) : Type 0 where
  pub confirmed : List File
  pub others : List File
  pub in_order : confirmed ++ others ≡ files
  pub agree : All (Agrees crc_of) confirmed
  pub counted : n ≡ ok + length confirmed
  pub enough : total ≤ n

-- What the end of the wait says of the files that the messages are about.
abbrev pub OnlyConfirmed : (ℕ → ℕ) → ℕ → ℕ → List File → Finale → Type 0
OnlyConfirmed crc_of total ok files (completes n) = Confirms crc_of total ok n files
OnlyConfirmed crc_of total ok files fails = Unit
OnlyConfirmed crc_of total ok files ended = Unit
OnlyConfirmed crc_of total ok files still_waits = Unit

module _ (crc_of : ℕ → ℕ) (small : (k : ℕ) → crc_of k < 2 ^ 32) where
  abbrev pub Counted : ℕ → List File → FileCheck → Type 0
  Counted ok es (goes_on hm n arrivals) =
      All (Agrees crc_of) es
      × ((n ≡ ok + length es) × (HonestMap crc_of hm × All (HonestArrival crc_of) arrivals))
  Counted ok es bad = Unit
  Counted ok es process_exits = Unit
  Counted ok es process_panics = Unit
  Counted ok es waits_for_checksum = Unit

  by_outcome-Counted :
      (es : List File) (ok : ℕ) (o : Outcome)
      → Verdict crc_of es ok o
      → Counted ok es (by_outcome o)
  unfolding by_outcome
  by_outcome-Counted es ok (checked hm n arrivals) (a, c, h, r) = (a, (c, (h, r)))
  by_outcome-Counted es ok (mismatch k) v = tt
  by_outcome-Counted es ok disconnected v = tt
  by_outcome-Counted es ok exits v = tt
  by_outcome-Counted es ok panics v = tt
  by_outcome-Counted es ok waits v = tt

  module _ (hm : Checksums) (ok : ℕ) (arrivals : List Arrival) (h : HonestMap crc_of hm)
      (r : All (HonestArrival crc_of) arrivals) where
    nothing_new : Counted ok [] (goes_on hm ok arrivals)
    nothing_new = (tt, (omega arith, (h, r)))

    check_list-Counted :
        (o : Option (List File)) → Counted ok (or_none o) (by_outcome (check_list hm ok arrivals o))
    unfolding check_list by_outcome
    check_list-Counted none = tt
    check_list-Counted (some es) =
        by_outcome-Counted es ok (check_files es hm ok arrivals)
          (check_files-Verdict crc_of small es hm ok arrivals h r)

    pub file_check-Counted : (m : Inbox) → Counted ok (files_of m) (file_check m hm ok arrivals)
    unfolding file_check handle_msg_from_receiver by_outcome
    file_check-Counted silence = nothing_new
    file_check-Counted (message t body) = elim (Bool-cases (t == msg_file_stat)) [
      | inl q ↦ rw q (check_list-Counted body.files)
      | inr q ↦ rw q (elim (Bool-cases (t == msg_keepalive)) [
        | inl p ↦ rw p nothing_new
        | inr p ↦ rw p (elim (Bool-cases (bit_and t 0x1f == msg_message)) [
          | inl s ↦ rw s tt
          | inr s ↦ rw s nothing_new
        ])
      ])
    ]

  pub Confirms-append :
      (total ok n : ℕ) (es files : List File) (k : ℕ)
      → All (Agrees crc_of) es
      → k ≡ ok + length es
      → Confirms crc_of total k n files
      → Confirms crc_of total ok n (es ++ files)
  Confirms-append total ok n es files k a c t = record {
    confirmed = es ++ t.confirmed;
    others = t.others;
    in_order = append_assoc es t.confirmed t.others ∙ ap (λ x. es ++ x) t.in_order;
    agree = All-append (Agrees crc_of) es t.confirmed a t.agree;
    counted = omega (arith, c, t.counted, length-append es t.confirmed);
    enough = t.enough;
  }

  OnlyConfirmed-append :
      (total ok k : ℕ) (es files : List File) (f : Finale)
      → All (Agrees crc_of) es
      → k ≡ ok + length es
      → OnlyConfirmed crc_of total k files f
      → OnlyConfirmed crc_of total ok (es ++ files) f
  OnlyConfirmed-append total ok k es files (completes n) a c t =
      Confirms-append total ok n es files k a c t
  OnlyConfirmed-append total ok k es files fails a c t = tt
  OnlyConfirmed-append total ok k es files ended a c t = tt
  OnlyConfirmed-append total ok k es files still_waits a c t = tt

  after_check-OnlyConfirmed :
      (total ok : ℕ) (es files : List File) (again : Checksums → ℕ → List Arrival → Finale)
      (f : FileCheck)
      → ((hm : Checksums) (k : ℕ) (arrivals : List Arrival)
          → HonestMap crc_of hm
          → All (HonestArrival crc_of) arrivals
          → OnlyConfirmed crc_of total k files (again hm k arrivals))
      → Counted ok es f
      → OnlyConfirmed crc_of total ok (es ++ files) (after_check again f)
  unfolding after_check
  after_check-OnlyConfirmed total ok es files again (goes_on hm k arrivals) ih (a, (c, (h, r))) =
      OnlyConfirmed-append total ok k es files (again hm k arrivals) a c (ih hm k arrivals h r)
  after_check-OnlyConfirmed total ok es files again bad ih c = tt
  after_check-OnlyConfirmed total ok es files again process_exits ih c = tt
  after_check-OnlyConfirmed total ok es files again process_panics ih c = tt
  after_check-OnlyConfirmed total ok es files again waits_for_checksum ih c = tt

  at_once :
      (total ok : ℕ) (files : List File) → leb total ok ≡ true → Confirms crc_of total ok ok files
  at_once total ok files q = record {
    confirmed = [];
    others = files;
    in_order = refl;
    agree = tt;
    counted = omega arith;
    enough = ground (arith, q);
  }

  -- If the sender's own checksums are right, those in the map and those that arrive, then the wait
  -- ends with a complete session only after a front part of the files that the receiver's messages are
  -- about has been confirmed, each with the checksum of the bytes that were sent or as an empty file,
  -- and with those confirmed before they are as many as the total.
  pub await_all-OnlyConfirmed :
      (total : ℕ) (ms : List Inbox) (hm : Checksums) (ok : ℕ) (arrivals : List Arrival)
      → HonestMap crc_of hm
      → All (HonestArrival crc_of) arrivals
      → OnlyConfirmed crc_of total ok (all_files ms) (await_all total ms hm ok arrivals)
  unfolding await_all
  await_all-OnlyConfirmed total [] hm ok arrivals h r = elim (Bool-cases (leb total ok)) [
    | inl q ↦ rw q (at_once total ok [] q)
    | inr q ↦ rw q tt
  ]
  await_all-OnlyConfirmed total (m ∷ ms) hm ok arrivals h r = elim (Bool-cases (leb total ok)) [
    | inl q ↦ rw q (at_once total ok (files_of m ++ all_files ms) q)
    | inr q ↦ rw q (
        after_check-OnlyConfirmed total ok (files_of m) (all_files ms) (await_all total ms)
          (file_check m hm ok arrivals) (await_all-OnlyConfirmed total ms)
          (file_check-Counted hm ok arrivals h r m))
  ]
