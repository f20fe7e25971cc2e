-- ===== src/Sender/Walk/Back.antt =====
-- How each step of a walk changes what is pending, read backwards.
use escp.Base.{
  ℕ, suc, ◌+◌, ◌≡◌, ◌≢◌, refl, subst, Bool, List, [], ◌∷◌, ◌++◌, append_assoc, append-nil, Text,
  arith,
}
use escp.Str.Paths.{join}
use escp.Receiver.Opening.{emfile}
use escp.Sender.Batch.{Stat, Entry}
use escp.Sender.Files.{
  Disk, listing, refused, Item, Verdict, ignored, enters, announces, ends_worker, waits,
}
use escp.Sender.Walk.{Reader, entry_items, Walk, settle, enter}
use escp.Sender.Walk.Found.{Tree, YieldsAll, nothing, the_file, below_dir}
use escp.Sender.Walk.Entries.{children, children-Children}
use escp.Sender.Walk.Handling.{Right}
use escp.Sender.Walk.Worth.{
  tally, tally-append, Count, Worth, Worth-Halves, Worth-insert, Worth-one,
}
use escp.Sender.Walk.Outlook.{
  told, tally-told, dir_items, reader_items, dir_items-append, reader_items-append, Outlook,
}

module _ (d : Disk) (t : Tree) (recursive : Bool) where
  -- Back over a step of a file worker.
  pub Outlook-settle :
      (s : Walk) (a b : List Item) (i : Item) (total : Count) (v : Verdict)
      → s.files ≡ a ++ i ∷ b
      → v ≢ waits
      → Right d t recursive i v
      → Outlook d t recursive (settle v (record s { files = a ++ b })) total
      → Outlook d t recursive s total
  unfolding settle Right tally dir_items
  Outlook-settle s a b i total ignored q n r o = record {
    files = λ P. tally P [] + o.files P;
    dirs = o.dirs;
    readers = o.readers;
    of_files = rw q (Worth-one d t recursive a b i [] o.files (nothing i r) o.of_files);
    of_dirs = o.of_dirs;
    of_readers = o.of_readers;
    balance = λ P. omega (arith, o.balance P);
  }
  Outlook-settle s a b i total (enters p f) q n (pp, (ff, (st, (r, (k, rec))))) o =
      let block = children p f (t.entries (join p f)) in
      let ws = subst (λ x. Worth d t recursive x o.dirs) (last_dir p f) o.of_dirs in
      let h = Worth-Halves d t recursive (dir_items d t recursive s.dirs) block o.dirs ws in
      record {
        files = λ P. tally P h.of_right.found + o.files P;
        dirs = h.left;
        readers = o.readers;
        of_files = rw q (
            Worth-one d t recursive a b i h.of_right.found o.files
              (below_dir i st (children i.prefix i.filename (t.entries (join i.prefix i.filename)))
                h.of_right.found r k rec
                (children-Children i.prefix i.filename (t.entries (join i.prefix i.filename)))
                (subst
                  (λ y.
                    YieldsAll d t recursive (children i.prefix y (t.entries (join i.prefix y)))
                      h.of_right.found)
                  ff
                  (subst
                    (λ x.
                      YieldsAll d t recursive (children x f (t.entries (join x f)))
                        h.of_right.found)
                    pp h.of_right.yields)))
              o.of_files);
        of_dirs = h.of_left;
        of_readers = o.of_readers;
        balance = λ P. omega (arith, o.balance P, h.together P, h.of_right.counted P);
      }
    where
      last_dir :
          (p f : Text)
          → dir_items d t recursive (s.dirs ++ (p, f) ∷ [])
            ≡ dir_items d t recursive s.dirs ++ children p f (t.entries (join p f))
      last_dir p f =
          rw
            (
              dir_items-append d t recursive s.dirs ((p, f) ∷ []),
              append-nil (children p f (t.entries (join p f))),
            )
            refl
  Outlook-settle s a b i total (announces name st fd) q n (nm, (rr, k)) o = record {
    files = λ P. tally P ((name, st) ∷ []) + o.files P;
    dirs = o.dirs;
    readers = o.readers;
    of_files = rw q (
        Worth-one d t recursive a b i ((name, st) ∷ []) o.files (the_file i st name rr k nm)
          o.of_files);
    of_dirs = o.of_dirs;
    of_readers = o.of_readers;
    balance = λ P. counted P (o.balance P);
  }
    where
      e : Entry
      e = record { fi = name; fino = suc s.fino; st = st }

      counted :
          (P : Text × Stat → Bool)
          → tally P (told s.sent)
              + tally P (told (s.numbered ++ e ∷ []))
              + o.files P
              + o.dirs P
              + o.readers P
            ≡ total P
          → tally P (told s.sent)
              + tally P (told s.numbered)
              + (tally P ((name, st) ∷ []) + o.files P)
              + o.dirs P
              + o.readers P
            ≡ total P
      counted P x = omega (arith, x, tally-told P s.numbered (e ∷ []))
  Outlook-settle s a b i total ends_worker q n r o = absurd r
  Outlook-settle s a b i total waits q n r o = absurd (n refl)

  -- Back over a step of a directory worker that has taken a directory.
  pub Outlook-listing :
      (s : Walk) (a b : List (Text × Text)) (x : Text × Text) (total : Count)
      → s.dirs ≡ a ++ x ∷ b
      → Outlook d t recursive
          (enter x (listing (t.entries (join x.0 x.1))) (record s { dirs = a ++ b }))
          total
      → Outlook d t recursive s total
  unfolding enter dir_items reader_items
  Outlook-listing s a b (p, f) total q o =
      let block = children p f (t.entries (join p f)) in
      let h =
        Worth-Halves d t recursive block (reader_items d t recursive s.readers) o.readers
          o.of_readers in
      let ds =
        subst (λ y. Worth d t recursive y o.dirs) (dir_items-append d t recursive a b) o.of_dirs in
      record {
        files = o.files;
        dirs = λ P. h.left P + o.dirs P;
        readers = h.right;
        of_files = o.of_files;
        of_dirs =
            rw (q, dir_items-append d t recursive a ((p, f) ∷ b))
              (Worth-insert d t recursive (dir_items d t recursive a) block
                (dir_items d t recursive b) o.dirs h.left h.of_left ds);
        of_readers = h.of_right;
        balance = λ P. omega (arith, o.balance P, h.together P);
      }

  pub Outlook-refused :
      (s : Walk) (a b : List (Text × Text)) (x : Text × Text) (total : Count)
      → s.dirs ≡ a ++ x ∷ b
      → Outlook d t recursive (enter x (refused emfile) (record s { dirs = a ++ b })) total
      → Outlook d t recursive s total
  unfolding enter dir_items
  Outlook-refused s a b (p, f) total q o =
      let block = children p f (t.entries (join p f)) in
      let h =
        Worth-Halves d t recursive block (dir_items d t recursive (a ++ b)) o.dirs o.of_dirs in
      let ds =
        subst (λ y. Worth d t recursive y h.right) (dir_items-append d t recursive a b)
          h.of_right in
      record {
        files = o.files;
        dirs = λ P. h.left P + h.right P;
        readers = o.readers;
        of_files = o.of_files;
        of_dirs =
            rw (q, dir_items-append d t recursive a ((p, f) ∷ b))
              (Worth-insert d t recursive (dir_items d t recursive a) block
                (dir_items d t recursive b) h.right h.left h.of_left ds);
        of_readers = o.of_readers;
        balance = λ P. omega (arith, o.balance P, h.together P);
      }

  pub Outlook-sends :
      (s : Walk) (a b : List Entry) (e : Entry) (total : Count)
      → s.numbered ≡ a ++ e ∷ b
      → Outlook d t recursive (record s { numbered = a ++ b; sent = s.sent ++ e ∷ [] }) total
      → Outlook d t recursive s total
  unfolding tally
  Outlook-sends s a b e total q o = record {
    files = o.files;
    dirs = o.dirs;
    readers = o.readers;
    of_files = o.of_files;
    of_dirs = o.of_dirs;
    of_readers = o.of_readers;
    balance = λ P. rw q (
        omega (
          arith,
          o.balance P,
          tally-told P s.sent (e ∷ []),
          tally-told P a b,
          tally-told P a (e ∷ b),
          tally-append P (told (e ∷ [])) (told b),
        ));
  }

  pub Outlook-reads :
      (s : Walk) (a b : List Reader) (r : Reader) (e : Text × ℕ) (es : List (Text × ℕ))
      (total : Count)
      → s.readers ≡ a ++ r ∷ b
      → r.left ≡ e ∷ es
      → Outlook d t recursive
          (record s {
            readers = a ++ record r { left = es } ∷ b;
            files = s.files ++ entry_items r.prefix r.filename e;
          })
          total
      → Outlook d t recursive s total
  unfolding reader_items
  Outlook-reads s a b r e es total q l o =
      let new = entry_items r.prefix r.filename e in
      let old = children r.prefix r.filename es in
      let h = Worth-Halves d t recursive s.files new o.files o.of_files in
      let rs =
        subst (λ y. Worth d t recursive y o.readers)
          (reader_items-append d t recursive a (record r { left = es } ∷ b)) o.of_readers in
      record {
        files = h.left;
        dirs = o.dirs;
        readers = λ P. h.right P + o.readers P;
        of_files = h.of_left;
        of_dirs = o.of_dirs;
        of_readers =
            rw
              (
                q,
                reader_items-append d t recursive a (r ∷ b),
                l,
                append_assoc new old (reader_items d t recursive b),
              )
              (Worth-insert d t recursive (reader_items d t recursive a) new
                (old ++ reader_items d t recursive b) o.readers h.right h.of_right rs);
        balance = λ P. omega (arith, o.balance P, h.together P);
      }

  pub Outlook-closes :
      (s : Walk) (a b : List Reader) (r : Reader) (total : Count)
      → s.readers ≡ a ++ r ∷ b
      → r.left ≡ []
      → Outlook d t recursive (record s { readers = a ++ b; tail = suc s.tail }) total
      → Outlook d t recursive s total
  unfolding reader_items
  Outlook-closes s a b r total q l o = record {
    files = o.files;
    dirs = o.dirs;
    readers = o.readers;
    of_files = o.of_files;
    of_dirs = o.of_dirs;
    of_readers =
        rw (q, reader_items-append d t recursive a (r ∷ b), l)
          (subst (λ y. Worth d t recursive y o.readers) (reader_items-append d t recursive a b)
            o.of_readers);
    balance = o.balance;
  }
