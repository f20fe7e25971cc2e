-- ===== src/Sender/Walk/Exact.antt =====
-- A finished walk has announced what the tree yields.
use escp.Base.{◌≡◌, subst, inl, inr, Bool, List, ◌++◌, Text, arith}
use escp.Str.Paths.{join}
use escp.Sender.Batch.{Stat}
use escp.Sender.Files.{Disk, Item, handle}
use escp.Sender.Walk.{
  Walk, enter, Step, handles, sends, enters_dir, reads, closes_dir, Steps, none_left, then_step,
  start, Finished,
}
use escp.Sender.Walk.Found.{Tree, Shows, YieldsAll}
use escp.Sender.Walk.Handling.{handle-Right}
use escp.Sender.Walk.Worth.{tally, Count, Worth-nil}
use escp.Sender.Walk.Outlook.{told, dir_items, reader_items, Outlook, Outlook-Finished}
use escp.Sender.Walk.Back.{
  Outlook-settle, Outlook-listing, Outlook-refused, Outlook-sends, Outlook-reads, Outlook-closes,
}

module _ (d : Disk) (t : Tree) (recursive : Bool) (shows : Shows t d) where
  Outlook-Step :
      {s u : Walk} (total : Count)
      → Step d recursive s u
      → Outlook d t recursive u total
      → Outlook d t recursive s total
  Outlook-Step total (handles s a b i w n q nw) o =
      Outlook-settle d t recursive s a b i total ((handle d recursive n i w).verdict) q nw
        (handle-Right d t recursive shows i n w) o
  Outlook-Step total (sends s a b e q) o = Outlook-sends d t recursive s a b e total q o
  Outlook-Step total (enters_dir s a b x n q) o = elim (shows.lists n (join x.0 x.1)) [
    | inl e ↦
        Outlook-listing d t recursive s a b x total q
          (subst (λ y. Outlook d t recursive (enter x y (record s { dirs = a ++ b })) total) e o)
    | inr e ↦
        Outlook-refused d t recursive s a b x total q
          (subst (λ y. Outlook d t recursive (enter x y (record s { dirs = a ++ b })) total) e o)
  ]
  Outlook-Step total (reads s a b r e es q l) o =
      Outlook-reads d t recursive s a b r e es total q l o
  Outlook-Step total (closes_dir s a b r q l) o = Outlook-closes d t recursive s a b r total q l o

  Outlook-Steps :
      {s u : Walk} (total : Count)
      → Steps d recursive s u
      → Outlook d t recursive u total
      → Outlook d t recursive s total
  Outlook-Steps total (none_left _) o = o
  Outlook-Steps total (then_step x xs) o = Outlook-Step total x (Outlook-Steps total xs o)

  -- If the disk shows the tree, then a walk from some items that has come to its end, whatever the
  -- order of its steps, has announced the files that the tree yields for these items, each as often
  -- as the tree yields it.
  pub Steps-YieldsAll :
      (is : List Item) (s : Walk)
      → Steps d recursive (start is) s
      → Finished s
      → (fs : List (Text × Stat)) × (YieldsAll d t recursive is fs
          × ((P : Text × Stat → Bool) → tally P (told s.sent) ≡ tally P fs))
  unfolding start tally dir_items reader_items
  Steps-YieldsAll is s xs f =
      let o = Outlook-Steps (λ P. tally P (told s.sent)) xs (Outlook-Finished d t recursive s f) in
      (
        o.of_files.found,
        (
          o.of_files.yields,
          λ P. omega (
            arith,
            o.balance P,
            o.of_files.counted P,
            Worth-nil d t recursive P o.dirs o.of_dirs,
            Worth-nil d t recursive P o.readers o.of_readers,
          ),
        ),
      )
