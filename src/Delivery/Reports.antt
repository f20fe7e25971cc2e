-- ===== src/Delivery/Reports.antt =====
-- The receiver's report on finished files in the hands of the sender: `send_file_completions`
-- (src/escp/receiver.rs), the tables, and `file_check` (src/escp/sender.rs).
use mathlib.Core.List.{reverse, reverse_aux}
use escp.Base.{
  ℕ, ◌+◌, ◌<◌, ◌^◌, ◌≡◌, ◌≢◌, refl, ap, sym, ◌∙◌, subst, inr, List, [], ◌∷◌, ◌++◌, map, some,
  length, All,
}
use escp.Header.{msg_file_stat}
use escp.Wire.Flat.{Flatbuffers}
use escp.Wire.FileSpec.{File, FileList}
use escp.Wire.FileSpec.ListTable.{create_file_list, read_file_list, read_file_list-create_file_list}
use escp.Base.Sort.{EachOnce}
use escp.Receiver.State.{FileInformation}
use escp.Receiver.Completions.{file_stat, send_file_completions, Sent, send_file_completions-Sent}
use escp.Sender.Check.{
  Checksums, Arrival, Outcome, checked, mismatch, disconnected, exits, panics, waits, check_files,
  check_list, handle_msg_from_receiver,
}
use escp.Sender.Check.Truth.{HonestMap, HonestArrival, Agrees, Verdict, check_files-Verdict}
use escp.Sender.Check.Confirms.{Available, IsOpen, Confirmed, IsExpected, check_files-Confirmed}
use escp.Sender.Check.Confirms as Confirms
use escp.Sender.Finish.{
  message, FileCheck, goes_on, bad, process_exits, process_panics, waits_for_checksum, by_outcome,
  file_check,
}

All-reverse_aux :
    (P : FileInformation → Type 0) (xs r : List FileInformation)
    → All P xs
    → All P r
    → All P (reverse_aux xs r)
All-reverse_aux P [] r h k = k
All-reverse_aux P (x ∷ xs) r (h, hs) k = All-reverse_aux P xs (x ∷ r) hs (h, k)

-- Written the other way round, each number still comes once.
Apart : List FileInformation → List FileInformation → Type 0
Apart xs r = All (λ x. All (λ y. y.fino ≢ x.fino) r) xs

Apart-cons :
    (x : FileInformation) (xs r : List FileInformation)
    → All (λ y. y.fino ≢ x.fino) xs
    → Apart xs r
    → Apart xs (x ∷ r)
unfolding Apart
Apart-cons x [] r n a = tt
Apart-cons x (y ∷ xs) r (n, ns) (a, as') = (((λ q. n (sym q)), a), Apart-cons x xs r ns as')

EachOnce-reverse_aux :
    (xs r : List FileInformation)
    → EachOnce (λ (fi : FileInformation). fi.fino) xs
    → EachOnce (λ (fi : FileInformation). fi.fino) r
    → Apart xs r
    → EachOnce (λ (fi : FileInformation). fi.fino) (reverse_aux xs r)
unfolding Apart
EachOnce-reverse_aux [] r o k a = k
EachOnce-reverse_aux (x ∷ xs) r (n, o) k (a, as') =
    EachOnce-reverse_aux xs (x ∷ r) o (a, k) (Apart-cons x xs r n as')

Apart-nil : (xs : List FileInformation) → Apart xs []
unfolding Apart
Apart-nil [] = tt
Apart-nil (x ∷ xs) = (tt, Apart-nil xs)

-- From the finished files to the entries for them, and to the entries of a message.
All-file_stat :
    (P : File → Type 0) (fis : List FileInformation)
    → All (λ fi. P (file_stat fi)) fis
    → All P (map file_stat fis)
All-file_stat P [] h = tt
All-file_stat P (fi ∷ fis) (h, hs) = (h, All-file_stat P fis hs)

EachOnce-file_stat :
    (fis : List FileInformation)
    → EachOnce (λ (fi : FileInformation). fi.fino) fis
    → Confirms.EachOnce (map file_stat fis)
EachOnce-file_stat [] o = tt
EachOnce-file_stat (fi ∷ fis) (n, o) =
    (All-file_stat (λ d. d.fino ≢ fi.fino) fis n, EachOnce-file_stat fis o)

All-front : (P : File → Type 0) (es fs : List File) → All P (es ++ fs) → All P es
All-front P [] fs h = tt
All-front P (e ∷ es) fs (h, hs) = (h, All-front P es fs hs)

EachOnce-front : (es fs : List File) → Confirms.EachOnce (es ++ fs) → Confirms.EachOnce es
EachOnce-front [] fs o = tt
EachOnce-front (e ∷ es) fs (n, o) =
    (All-front (λ d. d.fino ≢ e.fino) es fs n, EachOnce-front es fs o)

All-map :
    (P Q : FileInformation → Type 0) (fis : List FileInformation)
    → ((fi : FileInformation) → P fi → Q fi)
    → All P fis
    → All Q fis
All-map P Q [] f h = tt
All-map P Q (fi ∷ fis) f (h, hs) = (f fi h, All-map P Q fis f hs)

-- What holds of all finished files holds of the entries in the message.
All-sent :
    (P : FileInformation → Type 0) (Q : File → Type 0) (fis : List FileInformation) (m : FileList)
    (rest : List FileInformation) (s : Sent fis m rest)
    → ((fi : FileInformation) → P fi → Q (file_stat fi))
    → All P (reverse fis)
    → All Q s.sent
All-sent P Q fis m rest s f h = All-front Q s.sent (map file_stat (reverse rest)) (
    subst (All Q) (sym s.complete)
      (All-file_stat Q (reverse fis) (All-map P (λ fi. Q (file_stat fi)) (reverse fis) f h)))

-- The check went on, and counted that many files.
abbrev pub Counts : ℕ → FileCheck → Type 0
Counts n (goes_on hm ok arrivals) = ok ≡ n
Counts n bad = ⊥
Counts n process_exits = ⊥
Counts n process_panics = ⊥
Counts n waits_for_checksum = ⊥

-- What arrived unharmed: its checksum is that of the bytes sent, and the sender knows it or will.
abbrev pub Unharmed : (ℕ → ℕ) → Checksums → List Arrival → FileInformation → Type 0
Unharmed crc_of hm arrivals fi = (fi.crc ≡ crc_of fi.fino) × Available hm arrivals fi.fino

by_outcome-Counts :
    (crc_of : ℕ → ℕ) (es : List File) (ok : ℕ) (o : Outcome)
    → Verdict crc_of es ok o
    → Confirmed o
    → Counts (ok + length es) (by_outcome o)
unfolding by_outcome
by_outcome-Counts crc_of es ok (checked hm n arrivals) (a, c, h, r) k = c
by_outcome-Counts crc_of es ok (mismatch j) v k = k
by_outcome-Counts crc_of es ok disconnected v k = k
by_outcome-Counts crc_of es ok exits v k = k
by_outcome-Counts crc_of es ok panics v k = k
by_outcome-Counts crc_of es ok waits v k = k

file_check-files :
    (m : FileList) (es : List File) (hm : Checksums) (ok : ℕ) (arrivals : List Arrival)
    → m.files ≡ some es
    → file_check (message msg_file_stat m) hm ok arrivals
      ≡ by_outcome (check_files es hm ok arrivals)
unfolding file_check handle_msg_from_receiver check_list
file_check-files m es hm ok arrivals q = rw (q, check_list) refl

-- Of the finished files, those in the message, 4096 at most, are counted as confirmed.
pub record Accepted (fis : List FileInformation) (m : FileList) (rest : List FileInformation)
    (ok : ℕ) (c : FileCheck) : Type 0 where
  pub report : Sent fis m rest
  pub counts : Counts (ok + length report.sent) c

module _ (fb : Flatbuffers) (E : Type 0) (crc_of : ℕ → ℕ)
    (small : (k : ℕ) → crc_of k < 2 ^ 32) where
  -- If the finished files have numbers of their own and arrived unharmed, and the sender's checksums
  -- are right and their channel stays open, then the sender takes the receiver's report, sent as a
  -- table, without a mismatch and without waiting, and counts every file in it as confirmed.
  pub report-Accepted :
      (fis rest : List FileInformation) (m : FileList) (hm : Checksums) (ok : ℕ)
      (arrivals : List Arrival)
      → send_file_completions fis ≡ some (m, rest)
      → EachOnce (λ (fi : FileInformation). fi.fino) fis
      → All (Unharmed crc_of hm arrivals) fis
      → HonestMap crc_of hm
      → All (HonestArrival crc_of) arrivals
      → All IsOpen arrivals
      → Accepted fis m rest ok (
          file_check
            (message msg_file_stat (read_file_list fb (create_file_list fb {E = E} m)))
            hm
            ok
            arrivals)
  report-Accepted fis rest m hm ok arrivals q once unharmed h ha o =
      let s = send_file_completions-Sent fis m rest q in
      let back = All-reverse_aux (Unharmed crc_of hm arrivals) fis [] unharmed tt in
      let apart = EachOnce-reverse_aux fis [] once tt (Apart-nil fis) in
      record {
        report = s;
        counts =
            subst (Counts (ok + length s.sent))
              (sym (
                ap (λ l. file_check (message msg_file_stat l) hm ok arrivals)
                  (read_file_list-create_file_list fb E m)
                ∙ file_check-files m s.sent hm ok arrivals s.body))
              (by_outcome-Counts crc_of s.sent ok (check_files s.sent hm ok arrivals)
                (check_files-Verdict crc_of small s.sent hm ok arrivals h ha)
                (check_files-Confirmed crc_of small s.sent hm ok arrivals h ha o
                  (EachOnce-front s.sent (map file_stat (reverse rest)) (
                    subst Confirms.EachOnce (sym s.complete)
                      (EachOnce-file_stat (reverse fis) apart)))
                  (All-sent (Unharmed crc_of hm arrivals) (Agrees crc_of) fis m rest s
                    (λ fi u. inr (u.0)) back)
                  (All-sent (Unharmed crc_of hm arrivals) (IsExpected hm arrivals) fis m rest s
                    (λ fi u. (refl, inr (u.1))) back)));
      }
