-- ===== src/Sender/Walk/Bounded.antt =====
-- The walk comes to an end, if the tree does.
use escp.Base.{
  ℕ, suc, ◌+◌, ◌≤◌, ◌<◌, ◌≡◌, ◌⊎◌, refl, ap, inl, inr, Bool, List, [], ◌∷◌, ◌++◌, Text, length,
  length-append, arith,
}
use escp.Base.Totals.{total, total-append}
use escp.Str.Paths.{join}
use escp.Receiver.Opening.{emfile}
use escp.Sender.Files.{
  Disk, Item, Listing, listing, refused, Verdict, ignored, enters, announces, ends_worker, waits,
  handle,
}
use escp.Sender.Walk.{
  settle, enter, entry_items, Reader, Walk, Step, handles, sends, enters_dir, reads, closes_dir,
  Steps, none_left, then_step, start,
}
use escp.Sender.Walk.Found.{Tree, Shows}
use escp.Sender.Walk.Entries.{children}
use escp.Sender.Walk.Handling.{Right, handle-Right}

-- The sum of the weights of the items.
unfoldable pub of_items : (Text → Text → ℕ) → List Item → ℕ
of_items weight is = total (λ i. weight i.prefix i.filename) is

-- Every item weighs more than the entries below it: the weights show that the tree has an end.
unfoldable pub Ranks : Tree → (Text → Text → ℕ) → Type 0
Ranks t weight =
    (p f : Text)
    → 3 + length (t.entries (join p f)) + of_items weight (children p f (t.entries (join p f)))
      ≤ weight p f

abbrev pub of_answer : Listing → ℕ
of_answer (listing es) = 1
of_answer (refused errno) = 0

module _ {d : Disk} {recursive : Bool} where
  -- One for each step but those in which a directory could not be opened.
  abbrev pub of_step : {s u : Walk} → Step d recursive s u → ℕ
  of_step (handles s a b i w n q nw) = 1
  of_step (sends s a b e q) = 1
  of_step (enters_dir s a b x n q) = of_answer (d.open_dir n (join x.0 x.1))
  of_step (reads s a b r e es q l) = 1
  of_step (closes_dir s a b r q l) = 1

  -- The steps of a run without those in which a directory could not be opened.
  unfoldable pub useful : {s u : Walk} → Steps d recursive s u → ℕ
  useful (none_left s) = 0
  useful (then_step x xs) = of_step x + useful xs

module _ (d : Disk) (t : Tree) (recursive : Bool) (weight : Text → Text → ℕ) where
  of_dir : Text × Text → ℕ
  of_dir (p, f) =
      2 + length (t.entries (join p f)) + of_items weight (children p f (t.entries (join p f)))

  of_reader : Reader → ℕ
  of_reader r = 1 + length r.left + of_items weight (children r.prefix r.filename r.left)

  -- What the work that is left weighs.
  pub left_over : Walk → ℕ
  left_over s =
      of_items weight s.files + total of_dir s.dirs + total of_reader s.readers + length s.numbered

  total-take :
      {A : Type 0} (f : A → ℕ) (a b xs : List A) (x : A)
      → xs ≡ a ++ x ∷ b
      → total f xs ≡ f x + total f (a ++ b)
  unfolding total
  total-take f a b xs x q =
      omega (arith, ap (total f) q, total-append f a (x ∷ b), total-append f a b)

  total-put :
      {A : Type 0} (f : A → ℕ) (a b : List A) (x : A)
      → total f (a ++ x ∷ b) ≡ f x + total f (a ++ b)
  total-put f a b x = total-take f a b (a ++ x ∷ b) x refl

  module _ (shows : Shows t d) (ranks : Ranks t weight) where
    settle-left_over :
        (s : Walk) (i : Item) (v : Verdict)
        → Right d t recursive i v
        → left_over (settle v s) < weight i.prefix i.filename + left_over s
    unfolding left_over of_dir settle total Ranks Right
    settle-left_over s i ignored r = omega (arith, ranks i.prefix i.filename)
    settle-left_over s i (enters p f) (qp, (qf, r)) =
        rw (qp, qf)
          (omega (
            arith,
            ranks i.prefix i.filename,
            total-append of_dir s.dirs ((i.prefix, i.filename) ∷ []),
          ))
    settle-left_over s i (announces name st fd) r = omega (
      arith,
      ranks i.prefix i.filename,
      length-append s.numbered (record { fi = name; fino = suc s.fino; st = st } ∷ []),
    )
    settle-left_over s i ends_worker r = absurd r
    settle-left_over s i waits r = omega (arith, ranks i.prefix i.filename)

    enter-left_over :
        (s : Walk) (x : Text × Text) (o : Listing)
        → (o ≡ listing (t.entries (join x.0 x.1))) ⊎ (o ≡ refused emfile)
        → of_answer o + left_over (enter x o s) ≤ of_dir x + left_over s
    unfolding left_over of_dir of_reader enter total
    enter-left_over s x o (inl q) = rw q (omega arith)
    enter-left_over s x o (inr q) = rw q (omega arith)

    pub Step-left_over :
        {s u : Walk} (x : Step d recursive s u) → of_step x + left_over u ≤ left_over s
    unfolding left_over of_items of_reader
    Step-left_over (handles s a b i w n q nw) = omega (
      arith,
      settle-left_over (record s { files = a ++ b }) i ((handle d recursive n i w).verdict)
          (handle-Right d t recursive shows i n w),
      total-take (λ i. weight i.prefix i.filename) a b s.files i q,
    )
    Step-left_over (sends s a b e q) =
        omega (arith, ap length q, length-append a (e ∷ b), length-append a b)
    Step-left_over (enters_dir s a b x n q) = omega (
      arith,
      enter-left_over (record s { dirs = a ++ b }) x (d.open_dir n (join x.0 x.1))
          (shows.lists n (join x.0 x.1)),
      total-take of_dir a b s.dirs x q,
    )
    Step-left_over (reads s a b r e es q l) = omega (
      arith,
      total-take of_reader a b s.readers r q,
      total-put of_reader a b (record r { left = es }),
      ap (λ zs. 1 + length zs + of_items weight (children r.prefix r.filename zs)) l,
      total-append (λ i. weight i.prefix i.filename) s.files (entry_items r.prefix r.filename e),
      total-append (λ i. weight i.prefix i.filename) (entry_items r.prefix r.filename e)
          (children r.prefix r.filename es),
    )
    Step-left_over (closes_dir s a b r q l) = omega (arith, total-take of_reader a b s.readers r q)

    Steps-left_over :
        {s u : Walk} (xs : Steps d recursive s u) → useful xs + left_over u ≤ left_over s
    unfolding useful
    Steps-left_over (none_left s) = omega arith
    Steps-left_over (then_step x xs) = omega (arith, Step-left_over x, Steps-left_over xs)

    -- If the disk shows the tree, and weights of the items show that the tree has an end, then a run of
    -- the walk, in any order of the workers' steps, has at most as many steps as the items that it
    -- starts from weigh, not counting those in which a directory could not be opened.
    pub useful-start :
        (is : List Item) (s : Walk) (xs : Steps d recursive (start is) s)
        → useful xs ≤ of_items weight is
    unfolding left_over start total
    useful-start is s xs = omega (arith, Steps-left_over xs)
