-- ===== src/Sender/Rounds/EndToEnd.antt =====
-- From the tree on the disk to the messages: the workers' walk and the rounds together.
use escp.Base.{
  one_if, ℕ, ◌+◌, ◌≤◌, ◌≡◌, refl, ap, sym, ◌∙◌, subst, Bool, ◌&&◌, List, [], ◌∷◌, map, Text, length,
  ltb, leb, arith,
}
use escp.Base.Totals.{total, Perm-total, Perm-length}
use escp.Sender.Check.{Checksums, Arrival}
use escp.Sender.Batch.{Entry, Received, Stat, file_args}
use escp.Sender.Batch.InOrder.{numbers, count_up}
use escp.Sender.Batch.Gather.{entries}
use escp.Sender.Batch.Numbering.{times}
use escp.Sender.Files.{Disk, Item}
use escp.Sender.Finish.{Inbox}
use escp.Sender.Rounds.{Round, Turn, goes, leaves, stops, rounds, start}
use escp.Sender.Rounds.Kept.{IsWhole, listed}
use escp.Sender.Rounds.Closing.{EndsClosed}
use escp.Sender.Rounds.Turns.{Blamed}
use escp.Sender.Rounds.Complete.{Ends, rounds-AllAnnounced}
use escp.Sender.Walk.{Walk, Steps, Finished}
use escp.Sender.Walk as Walk
use escp.Sender.Walk.Found.{Tree, Shows, YieldsAll}
use escp.Sender.Walk.Outlook.{told}
use escp.Sender.Walk.Worth.{tally}
use escp.Sender.Walk.Exact.{Steps-YieldsAll}
use escp.Sender.Walk.Numbers.{IsNumbered, Steps-IsNumbered}

tally-total :
    (P : Text × Stat → Bool) (es : List Entry)
    → tally P (told es) ≡ total (λ e. one_if (P (e.fi, e.st))) es
unfolding tally total
tally-total P [] = refl
tally-total P (e ∷ es) = ap (λ n. one_if (P (e.fi, e.st)) + n) (tally-total P es)

-- The files in the messages are those of the tree, numbered in their order.
pub record TellsTree (preserve : Bool) (d : Disk) (t : Tree) (recursive : Bool) (is : List Item)
    (r : Round) : Type 0 where
  pub files : List Entry
  pub found : List (Text × Stat)
  pub yields : YieldsAll d t recursive is found
  pub same_files : (P : Text × Stat → Bool) → tally P (told files) ≡ tally P found
  pub in_order : numbers files ≡ count_up 1 (length files)
  pub messages : listed r.out ≡ map (file_args preserve) files
  pub returned : r.batch.files_total ≡ length files

abbrev pub EndsWithTree : Bool → Disk → Tree → Bool → List Item → List Inbox → Turn → Type 0
EndsWithTree preserve d t recursive is inbox (goes v) = ⊥
EndsWithTree preserve d t recursive is inbox (leaves v) = TellsTree preserve d t recursive is v
EndsWithTree preserve d t recursive is inbox (stops c) = Blamed inbox c

Finished-IsWhole : (s : Walk) → IsNumbered s → Finished s → IsWhole s.sent
unfolding times
Finished-IsWhole s h f k =
    whole (h.each_once k) (ap (times k) f.all_sent) h.counted (ap length f.all_sent)
  where
    whole :
        {a b n l : ℕ}
        → a + b ≡ one_if (ltb 0 k && leb k n)
        → a ≡ 0
        → l + length s.sent ≡ n
        → l ≡ 0
        → b ≡ one_if (ltb 0 k && leb k (length s.sent))
    whole p q r z = ground (arith, p, q, r, z)

module _ (preserve : Bool) (dest_path : Text) (d : Disk) (t : Tree) (recursive : Bool)
    (shows : Shows t d) where
  -- If the disk shows the tree, a walk of the workers from the items has come to its end, and the
  -- channel gives what it sent, in the same order but with any pauses, and is then closed, then as many
  -- rounds as the channel gives answers are enough: the messages list the files that the tree yields
  -- for the items, each as often as it is yielded, with the numbers 1, 2, ... in order; or the process
  -- ended, or waits, at a message of the receiver.
  pub walk-TellsTree :
      (n : ℕ) (is : List Item) (s : Walk) (fc_hash : Checksums) (channel : List Received)
      (inbox : List Inbox) (arrivals : List Arrival)
      → Steps d recursive (Walk.start is) s
      → Finished s
      → entries channel ≡ s.sent
      → EndsClosed channel
      → length channel ≤ n
      → EndsWithTree preserve d t recursive is inbox
          (rounds preserve dest_path n (start fc_hash channel inbox arrivals))
  walk-TellsTree n is s fc_hash channel inbox arrivals xs f c e l = finish _ (
      rounds-AllAnnounced preserve dest_path n fc_hash channel inbox arrivals e
        (subst IsWhole (sym c) (Finished-IsWhole s (Steps-IsNumbered d recursive is s xs) f)) l)
    where
      finish :
          (u : Turn)
          → Ends preserve (entries channel) inbox u
          → EndsWithTree preserve d t recursive is inbox u
      finish (goes v) x = x
      finish (leaves v) a =
          let (fs, (y, same)) = Steps-YieldsAll d t recursive shows is s xs f in
          record {
            files = a.files;
            found = fs;
            yields = y;
            same_files = λ P.
                tally-total P a.files
                ∙ Perm-total (λ e. one_if (P (e.fi, e.st))) a.same_files
                ∙ sym (tally-total P (entries channel))
                ∙ ap (λ es. tally P (told es)) c
                ∙ same P;
            in_order = a.in_order ∙ ap (count_up 1) (sym (Perm-length a.same_files));
            messages = a.messages;
            returned = a.returned ∙ sym (Perm-length a.same_files);
          }
      finish (stops x) b = b
