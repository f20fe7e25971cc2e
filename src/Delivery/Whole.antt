-- ===== src/Delivery/Whole.antt =====
-- From the tree on the sender's disk to the receiver's map and queue.
use escp.Base.{
  one_if, Bool-cases, append_assoc, ◌⊎◌, ℕ, suc, ◌+◌, ◌≤◌, ◌<◌, ◌≡◌, refl, ap, sym, ◌∙◌, inl, inr,
  Bool, true, false, ◌&&◌, List, [], ◌∷◌, ◌++◌, Option, none, some, Text, length, All, ltb, leb,
  arith, Option-cases,
}
use escp.Base.Sort.{EachOnce}
use escp.Wire.Flat.{Flatbuffers}
use escp.Wire.FileSpec.{File, FileList}
use escp.Wire.FileSpec.ListTable.{read_file_list-create_file_list}
use escp.Receiver.State.{Receiver, receiver_start}
use escp.Receiver.Entries.{
  full_path, known, or_default, from_spec, spec_entry, spec_entries, handle_file_spec,
}
use escp.Receiver.Entries as Entries
use escp.Sender.Check.{Checksums, Arrival}
use escp.Sender.Batch.{Entry, Received, file_args}
use escp.Sender.Batch.InOrder.{fino_of, numbers, count_up}
use escp.Sender.Batch.Gather.{entries}
use escp.Sender.Batch.Numbering.{times-count_up, times-EachOnce}
use escp.Sender.Files.{Disk, Item}
use escp.Sender.Finish.{Inbox}
use escp.Sender.Finish.Confirmed.{or_none}
use escp.Sender.Rounds.{Round, Turn, goes, leaves, stops, rounds, start}
use escp.Sender.Rounds.Kept.{listed}
use escp.Sender.Rounds.Closing.{EndsClosed}
use escp.Sender.Rounds.Turns.{Blamed}
use escp.Sender.Rounds.EndToEnd.{TellsTree, EndsWithTree, walk-TellsTree}
use escp.Sender.Transfer.Keeping.{OnTurn}
use escp.Sender.Walk.{Walk, Steps, Finished}
use escp.Sender.Walk as Walk
use escp.Sender.Walk.Found.{Tree, Shows}
use escp.Delivery.{Zstd, arrives, handle_all, then_all, below_root, planned}
use escp.Delivery.Rooted.{IsSpec, IsRooted, rounds-IsRooted}
use escp.Delivery.Entered.{updated, spec_entries-Entered}

spec_entries-append :
    (root : Text) (es fs : List File) (r : Receiver)
    → spec_entries root (es ++ fs) r ≡ then_all (spec_entries root fs) (spec_entries root es r)
unfolding spec_entries then_all
spec_entries-append root [] fs r = refl
spec_entries-append root (e ∷ es) fs r = elim (Option-cases (spec_entry root e r)) [
  | inl q ↦ rw (q, spec_entries, then_all) refl
  | inr (u, q) ↦ rw (q, spec_entries) (spec_entries-append root es fs u)
]

then_all-same :
    (f g : Receiver → Option Receiver) (o : Option Receiver)
    → ((r : Receiver) → f r ≡ g r)
    → then_all f o ≡ then_all g o
unfolding then_all
then_all-same f g none h = refl
then_all-same f g (some r) h = h r

handle_file_spec-spec_entries :
    (m : FileList) (root : Text) (es : List File) (r : Receiver)
    → m.root ≡ some root
    → m.files ≡ some es
    → handle_file_spec m r ≡ spec_entries root es r
unfolding handle_file_spec
handle_file_spec-spec_entries m root es r q p = rw (p, q, Entries.entries) refl

-- A message is sent as it is, or zstd gets it into both buffers.
abbrev pub Fits : Zstd → FileList → Type 0
Fits z m = (z.len m ≤ 160) ⊎ ((z.compresses m ≡ true) × (z.decompresses m ≡ true))

Fits-arrives : (z : Zstd) (m : FileList) → Fits z m → arrives z m ≡ true
unfolding arrives
Fits-arrives z m (inl q) = ground (arith, q)
Fits-arrives z m (inr (p, q)) = rw (p, q) (ground arith)

module _ (fb : Flatbuffers) (E : Type 0) (z : Zstd) (preserve : Bool) (dest_path : Text) where
  -- If all messages arrive, they together do what one message with all their files does.
  handle_all-listed :
      (out : List FileList) (r : Receiver)
      → All (IsSpec preserve dest_path) out
      → All (Fits z) out
      → handle_all fb E z out r ≡ spec_entries dest_path (listed out) r
  unfolding handle_all spec_entries
  handle_all-listed [] r h a = refl
  handle_all-listed (m ∷ ms) r ((q, (es, p)), h) (x, a) =
      rw (Fits-arrives z m x, handle_all) refl
      ∙ ap (λ x. then_all (handle_all fb E z ms) (handle_file_spec x r))
          (read_file_list-create_file_list fb E m)
      ∙ ap (then_all (handle_all fb E z ms)) (handle_file_spec-spec_entries m dest_path es r q p)
      ∙ then_all-same (handle_all fb E z ms) (spec_entries dest_path (listed ms))
          (spec_entries dest_path es r) (λ u. handle_all-listed ms u h a)
      ∙ sym (spec_entries-append dest_path es (listed ms) r)
      ∙ ap (λ o. spec_entries dest_path (or_none o ++ listed ms) r) (sym p)

below_root-full_path : (root name : Text) → full_path root name ≡ below_root root name
unfolding full_path
below_root-full_path [] name = refl
below_root-full_path (c ∷ root) name = sym (append_assoc (c ∷ root) (b'/' ∷ []) name)

updated-planned :
    (preserve : Bool) (root : Text) (e : Entry)
    → updated preserve root e receiver_start ≡ planned preserve root e
unfolding from_spec known or_default file_args
updated-planned true root e =
    ap (λ x. record (planned true root e) { path = x }) (below_root-full_path root e.fi)
updated-planned false root e =
    ap (λ x. record (planned false root e) { path = x }) (below_root-full_path root e.fi)

count_up-EachOnce :
    (n : ℕ) (es : List Entry) → numbers es ≡ count_up (suc n) (length es) → EachOnce fino_of es
count_up-EachOnce n es q = times-EachOnce es (λ k. at_most k (times-count_up k n es q))
  where
    at_most : (k : ℕ) {m : ℕ} → m ≡ one_if (ltb n k && leb k (n + length es)) → m ≤ 1
    at_most k q = ground (arith, q)

-- What the receiver makes of the messages: the files of the tree are in its queue, in the order of
-- their numbers, and its map has for each of them where it goes, its size and its metadata.
pub record Delivered (fb : Flatbuffers) (E : Type 0) (z : Zstd) (preserve : Bool) (dest_path : Text)
    (d : Disk) (t : Tree) (recursive : Bool) (is : List Item) (v : Round) : Type 0 where
  pub told : TellsTree preserve d t recursive is v
  pub receiver : Receiver
  pub fitted : All (Fits z) v.out
  pub handled : handle_all fb E z v.out receiver_start ≡ some receiver
  pub queued : receiver.files_add ≡ count_up 1 v.batch.files_total
  pub mapped :
      All (λ e. receiver.files_hash e.fino ≡ some (planned preserve dest_path e)) told.files

-- A message that zstd cannot get into the buffer of the sender or of the receiver.
abbrev pub DoesNotFit : Zstd → List FileList → Type 0
DoesNotFit z [] = ⊥
DoesNotFit z (m ∷ ms) =
    ((160 < z.len m) × ((z.compresses m ≡ false) ⊎ (z.decompresses m ≡ false))) ⊎ DoesNotFit z ms

Fits-or-DoesNotFit : (z : Zstd) (m : FileList) → Fits z m ⊎ DoesNotFit z (m ∷ [])
Fits-or-DoesNotFit z m = elim (Bool-cases (ltb 160 (z.len m))) [
  | inr q ↦ inl (inl (ground (arith, q)))
  | inl q ↦ elim (Bool-cases (z.compresses m)) [
    | inr p ↦ inr (inl (ground (arith, q), inl p))
    | inl p ↦ elim (Bool-cases (z.decompresses m)) [
      | inr r ↦ inr (inl (ground (arith, q), inr r))
      | inl r ↦ inl (inr (p, r))
    ]
  ]
]

All-or-DoesNotFit : (z : Zstd) (out : List FileList) → All (Fits z) out ⊎ DoesNotFit z out
All-or-DoesNotFit z [] = inl tt
All-or-DoesNotFit z (m ∷ ms) = elim (Fits-or-DoesNotFit z m) [
  | inr (inl q) ↦ inr (inl q)
  | inr (inr q) ↦ absurd q
  | inl q ↦ elim (All-or-DoesNotFit z ms) [ inl a ↦ inl (q, a) | inr x ↦ inr (inr x) ]
]

abbrev pub EndsDelivered :
    (fb : Flatbuffers) (E : Type 0)
    → Zstd
    → Bool
    → Text
    → Disk
    → Tree
    → Bool
    → List Item
    → List Inbox
    → Turn
    → Type 0
EndsDelivered fb E z preserve dest_path d t recursive is inbox (goes v) = ⊥
EndsDelivered fb E z preserve dest_path d t recursive is inbox (leaves v) =
    Delivered fb E z preserve dest_path d t recursive is v ⊎ DoesNotFit z v.out
EndsDelivered fb E z preserve dest_path d t recursive is inbox (stops c) = Blamed inbox c

All-planned :
    (preserve : Bool) (root : Text) (u : Receiver) (es : List Entry)
    → All (λ e. u.files_hash e.fino ≡ some (updated preserve root e receiver_start)) es
    → All (λ e. u.files_hash e.fino ≡ some (planned preserve root e)) es
All-planned preserve root u [] h = tt
All-planned preserve root u (e ∷ es) (q, h) =
    (q ∙ ap some (updated-planned preserve root e), All-planned preserve root u es h)

TellsTree-Delivered :
    (fb : Flatbuffers) (E : Type 0) (z : Zstd) (preserve : Bool) (dest_path : Text) (d : Disk)
    (t : Tree) (recursive : Bool) (is : List Item) (v : Round)
    → All (Fits z) v.out
    → TellsTree preserve d t recursive is v
    → IsRooted preserve dest_path v
    → Delivered fb E z preserve dest_path d t recursive is v
TellsTree-Delivered fb E z preserve dest_path d t recursive is v x a h =
    let (u, q, e) =
      spec_entries-Entered preserve dest_path a.files receiver_start
        (count_up-EachOnce 0 a.files a.in_order) in
    record {
      told = a;
      fitted = x;
      receiver = u;
      handled =
          handle_all-listed fb E z preserve dest_path v.out receiver_start h x
          ∙ ap (λ es. spec_entries dest_path es receiver_start) a.messages
          ∙ q;
      queued = e.queued ∙ a.in_order ∙ ap (count_up 1) (sym a.returned);
      mapped = All-planned preserve dest_path u a.files e.entered;
    }

module _ (fb : Flatbuffers) (E : Type 0) (z : Zstd) (preserve : Bool) (dest_path : Text) (d : Disk)
    (t : Tree) (recursive : Bool) (shows : Shows t d) where
  -- If the disk shows the tree, a walk from the items has come to its end, and the channel gives what
  -- it sent, in the same order but with any pauses, and is then closed, then as many rounds as the
  -- channel gives answers are enough, and the receiver handles their messages, as tables, without a
  -- panic: the files that the tree yields, each as often as it is yielded, are in its queue in the
  -- order of their numbers, and its map has the path below the root, the size and, if they are
  -- preserved, the metadata of each; or one of the messages, when compressed, does not fit the buffer
  -- of the sender or of the receiver, where the program panics; or the sender ended, or waits, at a
  -- message of the receiver.
  pub walk-Delivered :
      (n : ℕ) (is : List Item) (s : Walk) (fc_hash : Checksums) (channel : List Received)
      (inbox : List Inbox) (arrivals : List Arrival)
      → Steps d recursive (Walk.start is) s
      → Finished s
      → entries channel ≡ s.sent
      → EndsClosed channel
      → length channel ≤ n
      → EndsDelivered fb E z preserve dest_path d t recursive is inbox
          (rounds preserve dest_path n (start fc_hash channel inbox arrivals))
  unfolding start
  walk-Delivered n is s fc_hash channel inbox arrivals xs f c e l =
      finish _
        (walk-TellsTree preserve dest_path d t recursive shows n is s fc_hash channel inbox arrivals
          xs f c e l)
        (rounds-IsRooted preserve dest_path n (start fc_hash channel inbox arrivals) tt)
    where
      finish :
          (u : Turn)
          → EndsWithTree preserve d t recursive is inbox u
          → OnTurn (IsRooted preserve dest_path) u
          → EndsDelivered fb E z preserve dest_path d t recursive is inbox u
      finish (goes v) a h = a
      finish (leaves v) a h = elim (All-or-DoesNotFit z v.out) [
        | inl x ↦ inl (TellsTree-Delivered fb E z preserve dest_path d t recursive is v x a h)
        | inr x ↦ inr x
      ]
      finish (stops x) a h = a
