-- ===== src/Sender/Walk/Handling.antt =====
-- What a file worker does with an item is what the tree says of the item.
use escp.Base.{
  ℕ, zero, suc, ◌≡◌, ◌≢◌, refl, sym, subst, ◌∙◌, Option-cases, ◌∷◌, ◌++◌, inl, inr, Bool, true,
  false, [], Option, none, some, Text, text_eq, if◌then◌else◌, ◌==◌, ==_iff, arith, Bool-cases,
  true-ne-false,
}
use escp.Str.Paths.{join, path_starts_with}
use escp.Receiver.Opening.{Opened, opened, failed, einval, emfile}
use escp.Sender.Batch.{Stat}
use escp.Sender.Files.{
  Disk, Item, Opener, s_ifdir, s_iflnk, s_ifreg, file_type, Attempt, got, gives_up, tries_again,
  refusal, by_answer, call_open, open_plainly, by_direct_answer, open_once, Verdict, ignored,
  enters, announces, ends_worker, waits, name_by, message_name, unwrap_or, by_mode, by_type,
  by_stat, Handled, after_round, open_loop, path_of, handle,
}
use escp.Sender.Walk.Found.{
  Tree, Shows, Named, own_name, with_destination, Reached, Passed, missing, outside, without_status,
  special, flat,
}

name_by-Named : (i : Item) (s : Text) → i.destname ≡ s → Named i (name_by s i.filename)
unfolding name_by
name_by-Named i [] q = own_name q
name_by-Named i (c ∷ s) q =
    subst (λ u. Named i (u ++ 0 ∷ i.filename)) q (with_destination (λ e. not_nil (sym q ∙ e)))
  where
    not_nil : c ∷ s ≡ [] → ⊥
    not_nil e = cc

module _ (d : Disk) (t : Tree) (recursive : Bool) where
  -- The verdict is right for the item.
  unfoldable pub Right : Item → Verdict → Type 0
  Right i ignored = Passed d t recursive i
  Right i (enters p f) =
      (p ≡ i.prefix)
      × ((f ≡ i.filename)
          × ((st : Stat) × (Reached d t recursive i st
                × ((file_type st ≡ s_ifdir) × (recursive ≡ true)))))
  Right i (announces name st fd) =
      Named i name × (Reached d t recursive i st × (file_type st ≡ s_ifreg))
  Right i ends_worker = ⊥
  Right i waits = Unit

  by_mode-Right :
      (i : Item) (st : Stat) (b : Bool)
      → Reached d t recursive i st
      → file_type st ≡ s_ifdir
      → recursive ≡ b
      → Right i (by_mode b i)
  unfolding Right by_mode
  by_mode-Right i st true r k q = (refl, (refl, (st, (r, (k, q)))))
  by_mode-Right i st false r k q = flat st r k q

  by_type-Right :
      (i : Item) (fd : ℕ) (st : Stat)
      → Reached d t recursive i st
      → Right i ((by_type recursive i fd st).0)
  unfolding Right by_type message_name
  by_type-Right i fd st r = elim (Bool-cases (file_type st == s_ifdir)) [
    | inl q ↦ rw q (by_mode-Right i st recursive r ((==_iff (file_type st) s_ifdir).0 q) refl)
    | inr q ↦ elim (Bool-cases (file_type st == s_ifreg)) [
      | inl p ↦
          rw (q, not_link ((==_iff (file_type st) s_ifreg).0 p), p)
            ((name_by-Named i i.destname refl, (r, (==_iff (file_type st) s_ifreg).0 p)))
      | inr p ↦ elim (Bool-cases (file_type st == s_iflnk)) [
        | inl l ↦ rw (q, l) (special st r (differs s_ifdir q) (differs s_ifreg p))
        | inr l ↦ rw (q, l, p) (special st r (differs s_ifdir q) (differs s_ifreg p))
      ]
    ]
  ]
    where
      differs : (k : ℕ) → (file_type st == k) ≡ false → file_type st ≢ k
      differs k e = λ x. ground arith

      not_link : file_type st ≡ s_ifreg → (file_type st == s_iflnk) ≡ false
      not_link e = rw e refl

  by_stat-Right :
      (i : Item) (path : Text) (fd : ℕ) (o : Option Stat)
      → d.canonicalize (join i.prefix i.filename) ≡ some path
      → path_starts_with path i.prefix ≡ true
      → t.stat_at path ≡ o
      → Right i ((by_stat recursive i fd o).0)
  unfolding Right by_stat
  by_stat-Right i path fd none h b q = without_status path h q
  by_stat-Right i path fd (some st) h b q =
      by_type-Right i fd st (record { path = path; canonical = h; below = b; status = q })

  -- A round of `open` ends with a descriptor of what is there, or is to be made again.
  pub Good : Text → Attempt × Opener → Type 0
  Good path (got fd, w) = d.fstat w.calls fd ≡ t.stat_at path
  Good path (gives_up errno, w) = ⊥
  Good path (tries_again, w) = Unit

  module _ (shows : Shows t d) (path : Text) where
    refusal-Good : (w : Opener) (errno : ℕ) → errno ≡ emfile → Good path (refusal errno, w)
    unfolding Good refusal
    refusal-Good w errno e = rw e tt

    by_answer-Good :
        (w v : Opener) (o : Opened)
        → d.open_file w.calls path false ≡ o
        → v.calls ≡ suc w.calls
        → Good path (by_answer o, v)
    unfolding Good by_answer
    by_answer-Good w v (opened fd) q c = rw c (shows.stats w.calls path false fd q)
    by_answer-Good w v (failed errno) q c = elim (shows.refuses w.calls path false errno q) [
      | inl e ↦ refusal-Good v errno e
      | inr e ↦ absurd (true-ne-false (sym e.1))
    ]

    open_plainly-Good : (w : Opener) → Good path (open_plainly d path w)
    unfolding open_plainly call_open
    open_plainly-Good w =
        by_answer-Good w (call_open (record w { direct_mode = false }))
          (d.open_file w.calls path false) refl refl

    by_direct_answer-Good :
        (w : Opener) (o : Opened)
        → d.open_file w.calls path true ≡ o
        → Good path (by_direct_answer d path (call_open w) o)
    unfolding Good by_direct_answer call_open
    by_direct_answer-Good w (opened fd) q = shows.stats w.calls path true fd q
    by_direct_answer-Good w (failed errno) q = elim (Bool-cases (errno == einval)) [
      | inl e ↦ rw e (open_plainly-Good (call_open w))
      | inr e ↦ elim (shows.refuses w.calls path true errno q) [
        | inl f ↦ rw e (refusal-Good (call_open w) errno f)
        | inr f ↦ absurd (differs f.0 e)
      ]
    ]
      where
        differs : errno ≡ einval → (errno == einval) ≡ false → ⊥
        differs f e = ground arith

    if-Good :
        (b : Bool) (x y : Attempt × Opener)
        → Good path x
        → Good path y
        → Good path (if b then x else y)
    if-Good true x y gx gy = gx
    if-Good false x y gx gy = gy

    open_once-Good : (w : Opener) → Good path (open_once d path w)
    unfolding open_once
    open_once-Good w =
        if-Good w.direct_mode
          (by_direct_answer d path (call_open w) (d.open_file w.calls path true))
          (open_plainly d path w) (by_direct_answer-Good w (d.open_file w.calls path true) refl)
          (open_plainly-Good w)

  module _ (shows : Shows t d) (i : Item) where
    after_round-Right :
        (path : Text) (again : Opener → Handled) (a : Attempt × Opener)
        → d.canonicalize (join i.prefix i.filename) ≡ some path
        → path_starts_with path i.prefix ≡ true
        → Good path a
        → ((w : Opener) → Right i ((again w).verdict))
        → Right i ((after_round d recursive i again a).verdict)
    unfolding Good after_round
    after_round-Right path again (got fd, w) h b g k =
        by_stat-Right i path fd (d.fstat w.calls fd) h b (sym g)
    after_round-Right path again (gives_up errno, w) h b g k = absurd g
    after_round-Right path again (tries_again, w) h b g k = k w

    open_loop-Right :
        (path : Text) (n : ℕ) (w : Opener)
        → d.canonicalize (join i.prefix i.filename) ≡ some path
        → path_starts_with path i.prefix ≡ true
        → Right i ((open_loop d recursive i path n w).verdict)
    unfolding open_loop Right
    open_loop-Right path zero w h b = tt
    open_loop-Right path (suc n) w h b =
        after_round-Right path (open_loop d recursive i path n) (open_once d path w) h b
          (open_once-Good shows path w) (λ v. open_loop-Right path n v h b)

    not_empty :
        (path : Text)
        → d.canonicalize (join i.prefix i.filename) ≡ some path
        → text_eq path [] ≡ false
    unfolding text_eq
    not_empty [] h = absurd (shows.paths (join i.prefix i.filename) h)
    not_empty (c ∷ path) h = refl

    -- If the disk shows the tree, then what a file worker does with an item, however often it has to
    -- open the file, is right for the item: it is passed over, entered or announced under its name
    -- exactly if it is to be, and it never ends the worker.
    pub handle-Right : (n : ℕ) (w : Opener) → Right i ((handle d recursive n i w).verdict)
    unfolding handle path_of unwrap_or Right text_eq
    handle-Right n w = elim (Option-cases (d.canonicalize (join i.prefix i.filename))) [
      | inl q ↦ rw q (missing q)
      | inr (path, q) ↦ elim (Bool-cases (path_starts_with path i.prefix)) [
        | inl p ↦ rw (q, not_empty path q, p) (open_loop-Right path n w q p)
        | inr p ↦ rw (q, not_empty path q, p) (outside path q p)
      ]
    ]
