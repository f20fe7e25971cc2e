-- ===== src/Sender/Transfer/Truthful.antt =====
-- The session is completed only with as many files confirmed as were announced, whenever the
-- confirmations came.
use escp.Base.{
  ℕ, zero, suc, ◌<◌, ◌≤◌, ◌^◌, ◌≡◌, refl, ap, sym, ◌∙◌, subst, inl, inr, Bool, true, false, List,
  [], ◌∷◌, ◌++◌, append_assoc, Option, none, some, Text, length, length-append, All, All-append,
  ltb, arith, Bool-cases,
}
use escp.Wire.FileSpec.{File, FileList}
use escp.Sender.Check.{Checksums, Arrival}
use escp.Sender.Check.Truth.{HonestMap, HonestArrival, Agrees}
use escp.Sender.Batch.{Entry, Batcher, Received, collect, announce}
use escp.Sender.Batch.Gather.{entries, collect-Gathered}
use escp.Sender.Finish.{
  Inbox, FileCheck, goes_on, bad, process_exits, process_panics, waits_for_checksum, file_check,
  Finale, completes, fails, ended, still_waits, await_all,
}
use escp.Sender.Finish.Confirmed.{
  files_of, all_files, Confirms, OnlyConfirmed, Counted, file_check-Counted, Confirms-append,
  await_all-OnlyConfirmed,
}
use escp.Sender.Rounds.{
  Round, Turn, goes, leaves, stops, leave_if, told, tell, heard, listen, received, turn, rounds,
  first_message, start, other_messages,
}
use escp.Sender.Rounds.Kept.{IsWhole}
use escp.Sender.Rounds.Closing.{EndsClosed}
use escp.Sender.Rounds.Complete.{AllAnnounced, Ends, rounds-AllAnnounced}
use escp.Sender.Rounds.Telling.{announce-Unmoved}
use escp.Sender.Transfer.Keeping.{OnTurn, OnTurn-both, Keeps, after-Keeps, progress-Keeps}
use escp.Sender.Transfer.{
  Tick, progress, show_progress, Sending, complete, nothing_to_transfer, checked_out, failed,
  running, at_finale, confirm, is_idle, after_rounds, send_all,
}

all_files-first :
    (inbox : List Inbox)
    → all_files inbox ≡ files_of (first_message inbox) ++ all_files (other_messages inbox)
unfolding first_message other_messages
all_files-first [] = refl
all_files-first (m ∷ inbox) = refl

module _ (crc_of : ℕ → ℕ) (small : (k : ℕ) → crc_of k < 2 ^ 32) (files : List File) where
  -- The files confirmed so far are a front part of those that the receiver's messages are about, and
  -- what the sender knows of its own checksums is right.
  pub record Tallied (r : Round) : Type 0 where
    pub confirmed : List File
    pub in_order : confirmed ++ all_files r.inbox ≡ files
    pub agree : All (Agrees crc_of) confirmed
    pub counted : r.files_ok ≡ length confirmed
    pub known : HonestMap crc_of r.batch.fc_hash
    pub arriving : All (HonestArrival crc_of) r.arrivals

  heard-Tallied :
      (next : Round → Turn) (r : Round) (c : FileCheck)
      → Keeps Tallied next
      → Tallied r
      → Counted crc_of small r.files_ok (files_of (first_message r.inbox)) c
      → OnTurn Tallied (heard next r c)
  unfolding heard
  heard-Tallied next r (goes_on hm ok arrivals) k h (a, (c, (m, s))) = k _ (record {
    confirmed = h.confirmed ++ files_of (first_message r.inbox);
    in_order =
        append_assoc h.confirmed (files_of (first_message r.inbox))
          (all_files (other_messages r.inbox))
        ∙ ap (λ l. h.confirmed ++ l) (sym (all_files-first r.inbox))
        ∙ h.in_order;
    agree = All-append (Agrees crc_of) h.confirmed (files_of (first_message r.inbox)) h.agree a;
    counted =
        omega (arith, c, h.counted, length-append h.confirmed (files_of (first_message r.inbox)));
    known = m;
    arriving = s;
  })
  heard-Tallied next r bad k h c = tt
  heard-Tallied next r process_exits k h c = tt
  heard-Tallied next r process_panics k h c = tt
  heard-Tallied next r waits_for_checksum k h c = tt

  listen-Tallied : (next : Round → Turn) → Keeps Tallied next → Keeps Tallied (listen next)
  unfolding listen
  listen-Tallied next k r h =
      heard-Tallied next r
        (file_check (first_message r.inbox) r.batch.fc_hash r.files_ok r.arrivals) k h
        (file_check-Counted crc_of small r.batch.fc_hash r.files_ok r.arrivals h.known h.arriving
          (first_message r.inbox))

  leave_if-Tallied : (b : Bool) → Keeps Tallied (leave_if b)
  unfolding leave_if
  leave_if-Tallied true r h = h
  leave_if-Tallied false r h = h

  -- The account looks at the checksums, and at nothing else in the batch.
  Tallied-batch :
      (r : Round) (s : Batcher) (out : List FileList) (channel : List Received)
      → HonestMap crc_of s.fc_hash
      → Tallied r
      → Tallied (record r { batch = s; out = out; channel = channel })
  Tallied-batch r s out channel k h = record {
    confirmed = h.confirmed;
    in_order = h.in_order;
    agree = h.agree;
    counted = h.counted;
    known = k;
    arriving = h.arriving;
  }

  told-Tallied :
      (r : Round) (p : Batcher × Option FileList)
      → p.0.fc_hash ≡ r.batch.fc_hash
      → Tallied r
      → OnTurn Tallied (told r p)
  unfolding told
  told-Tallied r (s, some m) q h =
      leave_if-Tallied s.do_break _
        (Tallied-batch r s (r.out ++ m ∷ []) r.channel (subst (HonestMap crc_of) (sym q) h.known) h)
  told-Tallied r (s, none) q h = elim (Bool-cases (ltb 0 r.batch.counter)) [
    | inl x ↦ rw x (same h)
    | inr x ↦ rw x (leave_if-Tallied s.do_break _ (same h))
  ]
    where
      same : Tallied r → Tallied (record r { batch = s })
      same h = Tallied-batch r s r.out r.channel (subst (HonestMap crc_of) (sym q) h.known) h

  tell-Tallied : (preserve : Bool) (dest_path : Text) → Keeps Tallied (tell preserve dest_path)
  unfolding tell
  tell-Tallied preserve dest_path r h =
      told-Tallied r (announce preserve dest_path r.batch)
        ((announce-Unmoved preserve dest_path r.batch).checksums) h

  received-Tallied :
      (next : Round → Turn) (r : Round) (c : Batcher × List Received × Bool)
      → Keeps Tallied next
      → HonestMap crc_of c.0.fc_hash
      → Tallied r
      → OnTurn Tallied (received next r c)
  unfolding received
  received-Tallied next r (s, rest, true) k m h =
      listen-Tallied next k _ (Tallied-batch r s r.out rest m h)
  received-Tallied next r (s, rest, false) k m h = k _ (Tallied-batch r s r.out rest m h)

  turn-Tallied : (preserve : Bool) (dest_path : Text) → Keeps Tallied (turn preserve dest_path)
  unfolding turn
  turn-Tallied preserve dest_path r h =
      received-Tallied (tell preserve dest_path) r (collect r.channel r.batch)
        (tell-Tallied preserve dest_path)
        ((collect-Gathered r.channel r.batch).honest crc_of h.known) h

  rounds-Tallied :
      (preserve : Bool) (dest_path : Text) (n : ℕ) → Keeps Tallied (rounds preserve dest_path n)
  unfolding rounds
  rounds-Tallied preserve dest_path zero r h = h
  rounds-Tallied preserve dest_path (suc n) r h =
      after-Keeps Tallied (rounds preserve dest_path n) (turn preserve dest_path r)
        (rounds-Tallied preserve dest_path n) (turn-Tallied preserve dest_path r h)

-- How the transfer ends: if it is complete, then all files that came from the workers were announced,
-- and a front part of the files that the receiver's messages are about, as many at least, has been
-- confirmed, each with the checksum of the bytes that were sent or as an empty file.
abbrev pub IsTruthful : (ℕ → ℕ) → Bool → List Entry → List File → Sending → Type 0
IsTruthful crc_of preserve all files (complete v k) =
    AllAnnounced preserve all v × Confirms crc_of (length all) 0 k files
IsTruthful crc_of preserve all files nothing_to_transfer = Unit
IsTruthful crc_of preserve all files (checked_out c) = Unit
IsTruthful crc_of preserve all files (failed f) = Unit
IsTruthful crc_of preserve all files running = Unit

AllAnnounced-listen :
    (preserve : Bool) (all : List Entry) (next : Round → Turn)
    → Keeps (AllAnnounced preserve all) next
    → Keeps (AllAnnounced preserve all) (listen next)
unfolding listen
AllAnnounced-listen preserve all next k r h =
    heard_on (file_check (first_message r.inbox) r.batch.fc_hash r.files_ok r.arrivals)
  where
    heard_on : (c : FileCheck) → OnTurn (AllAnnounced preserve all) (heard next r c)
    heard_on (goes_on hm ok arrivals) = k _ (record {
      files = h.files;
      same_files = h.same_files;
      in_order = h.in_order;
      messages = h.messages;
      returned = h.returned;
    })
    heard_on bad = tt
    heard_on process_exits = tt
    heard_on process_panics = tt
    heard_on waits_for_checksum = tt

module _ (crc_of : ℕ → ℕ) (small : (k : ℕ) → crc_of k < 2 ^ 32) (preserve : Bool) (all : List Entry)
    (files : List File) where
  abbrev Right : Round → Type 0
  Right r = Tallied crc_of small files r × AllAnnounced preserve all r

  at_finale-IsTruthful :
      (r : Round) (f : Finale)
      → Right r
      → OnlyConfirmed crc_of r.batch.files_total r.files_ok (all_files r.inbox) f
      → IsTruthful crc_of preserve all files (at_finale r f)
  unfolding at_finale
  at_finale-IsTruthful r (completes n) (h, a) o = (
    a,
    recount (
        subst (Confirms crc_of r.batch.files_total 0 n) h.in_order (
          Confirms-append crc_of small r.batch.files_total 0 n h.confirmed (all_files r.inbox)
            r.files_ok h.agree (omega (arith, h.counted)) o)),
  )
    where
      recount :
          Confirms crc_of r.batch.files_total 0 n files → Confirms crc_of (length all) 0 n files
      recount = subst (λ t. Confirms crc_of t 0 n files) a.returned
  at_finale-IsTruthful r fails h o = tt
  at_finale-IsTruthful r ended h o = tt
  at_finale-IsTruthful r still_waits h o = tt

  confirm-IsTruthful :
      (t : Turn) → OnTurn Right t → IsTruthful crc_of preserve all files (confirm t)
  unfolding confirm
  confirm-IsTruthful (goes r) h = tt
  confirm-IsTruthful (stops c) h = tt
  confirm-IsTruthful (leaves r) (h, a) =
      at_finale-IsTruthful r
        (await_all r.batch.files_total r.inbox r.batch.fc_hash r.files_ok r.arrivals) (h, a)
        (await_all-OnlyConfirmed crc_of small r.batch.files_total r.inbox r.batch.fc_hash r.files_ok
          r.arrivals h.known h.arriving)

  show_progress-Right : (quiet : Bool) (ticks : List Tick) → Keeps Right (show_progress quiet ticks)
  unfolding show_progress
  show_progress-Right true ticks r h = h
  show_progress-Right false ticks r (h, a) =
      OnTurn-both (Tallied crc_of small files) (AllAnnounced preserve all) (progress ticks r)
        (progress-Keeps (Tallied crc_of small files) (listen-Tallied crc_of small files) ticks r h)
        (progress-Keeps (AllAnnounced preserve all) (AllAnnounced-listen preserve all) ticks r a)

  after_rounds-IsTruthful :
      (quiet shmem : Bool) (ticks : List Tick) (t : Turn)
      → OnTurn (Tallied crc_of small files) t
      → ((v : Round) → t ≡ leaves v → AllAnnounced preserve all v)
      → IsTruthful crc_of preserve all files (after_rounds quiet shmem ticks t)
  unfolding after_rounds
  after_rounds-IsTruthful quiet shmem ticks (goes r) h a = tt
  after_rounds-IsTruthful quiet shmem ticks (stops c) h a = tt
  after_rounds-IsTruthful quiet shmem ticks (leaves r) h a = elim (Bool-cases (is_idle shmem r)) [
    | inl q ↦ rw q tt
    | inr q ↦ rw q (
        confirm-IsTruthful (show_progress quiet ticks r)
          (show_progress-Right quiet ticks r (h, a r refl)))
  ]

-- If the sender's own checksums are right, those in the map and those that arrive, and the channel
-- gives files whose numbers are 1, 2, ..., in any order, and is then closed, then the receiver is told
-- that the session is complete only when every file has been announced, in the order of the numbers,
-- and a front part of the files that the receiver's messages are about, at least as many as were
-- announced, has been confirmed, each with the checksum of the bytes sent or as an empty file.
pub send_all-IsTruthful :
    (crc_of : ℕ → ℕ) (small : (k : ℕ) → crc_of k < 2 ^ 32) (preserve quiet shmem : Bool)
    (dest_path : Text) (n : ℕ) (ticks : List Tick) (fc_hash : Checksums) (channel : List Received)
    (inbox : List Inbox) (arrivals : List Arrival)
    → HonestMap crc_of fc_hash
    → All (HonestArrival crc_of) arrivals
    → EndsClosed channel
    → IsWhole (entries channel)
    → length channel ≤ n
    → IsTruthful crc_of preserve
        (entries channel)
        (all_files inbox)
        (send_all preserve quiet shmem dest_path n ticks (start fc_hash channel inbox arrivals))
unfolding send_all start
send_all-IsTruthful crc_of small preserve quiet shmem dest_path n ticks fc_hash channel inbox
      arrivals m s e w l =
    after_rounds-IsTruthful crc_of small preserve (entries channel) (all_files inbox) quiet shmem
      ticks (rounds preserve dest_path n (start fc_hash channel inbox arrivals))
      (rounds-Tallied crc_of small (all_files inbox) preserve dest_path n
        (start fc_hash channel inbox arrivals)
        (record {
          confirmed = [];
          in_order = refl;
          agree = tt;
          counted = refl;
          known = m;
          arriving = s;
        }))
      (λ v q.
        subst (Ends preserve (entries channel) inbox) q
          (rounds-AllAnnounced preserve dest_path n fc_hash channel inbox arrivals e w l))
