-- ===== src/Sender/Walk/Outlook.antt =====
-- What is pending in a walk.
use escp.Base.{◌+◌, ◌≡◌, refl, ap, Bool, List, [], ◌∷◌, ◌++◌, append_assoc, map, Text, arith}
use escp.Str.Paths.{join}
use escp.Sender.Batch.{Stat, Entry}
use escp.Sender.Files.{Disk, Item}
use escp.Sender.Walk.{Reader, Walk, Finished}
use escp.Sender.Walk.Found.{Tree}
use escp.Sender.Walk.Entries.{children}
use escp.Sender.Walk.Worth.{tally, tally-append, Count, Worth, Worth-none}

-- What the messages announce.
abbrev pub told : List Entry → List (Text × Stat)
told = map (λ e. (e.fi, e.st))

told-append : (es fs : List Entry) → told (es ++ fs) ≡ told es ++ told fs
told-append [] fs = refl
told-append (e ∷ es) fs = ap (λ x. (e.fi, e.st) ∷ x) (told-append es fs)

pub tally-told :
    (P : Text × Stat → Bool) (es fs : List Entry)
    → tally P (told (es ++ fs)) ≡ tally P (told es) + tally P (told fs)
tally-told P es fs = rw (told-append es fs) (tally-append P (told es) (told fs))

module _ (d : Disk) (t : Tree) (recursive : Bool) where
  -- The items below the directories that wait, and below those being read.
  unfoldable pub dir_items : List (Text × Text) → List Item
  dir_items [] = []
  dir_items (x ∷ xs) = children x.0 x.1 (t.entries (join x.0 x.1)) ++ dir_items xs

  unfoldable pub reader_items : List Reader → List Item
  reader_items [] = []
  reader_items (r ∷ rs) = children r.prefix r.filename r.left ++ reader_items rs

  pub dir_items-append :
      (a b : List (Text × Text)) → dir_items (a ++ b) ≡ dir_items a ++ dir_items b
  unfolding dir_items
  dir_items-append [] b = refl
  dir_items-append (x ∷ a) b =
      rw
        (
          dir_items-append a b,
          append_assoc (children x.0 x.1 (t.entries (join x.0 x.1))) (dir_items a) (dir_items b),
        )
        refl

  pub reader_items-append :
      (a b : List Reader) → reader_items (a ++ b) ≡ reader_items a ++ reader_items b
  unfolding reader_items
  reader_items-append [] b = refl
  reader_items-append (r ∷ a) b =
      rw
        (
          reader_items-append a b,
          append_assoc (children r.prefix r.filename r.left) (reader_items a) (reader_items b),
        )
        refl

  -- The messages and what the pending items are worth come to the total.
  pub record Outlook (s : Walk) (total : Count) : Type 0 where
    pub files : Count
    pub dirs : Count
    pub readers : Count
    pub of_files : Worth d t recursive s.files files
    pub of_dirs : Worth d t recursive (dir_items s.dirs) dirs
    pub of_readers : Worth d t recursive (reader_items s.readers) readers
    pub balance :
        (P : Text × Stat → Bool)
        → tally P (told s.sent) + tally P (told s.numbered) + files P + dirs P + readers P ≡ total P

  pub Outlook-Finished : (s : Walk) → Finished s → Outlook s (λ P. tally P (told s.sent))
  unfolding dir_items reader_items tally
  Outlook-Finished s f = record {
    files = λ P. 0;
    dirs = λ P. 0;
    readers = λ P. 0;
    of_files = rw f.no_files (Worth-none d t recursive);
    of_dirs = rw f.no_dirs (Worth-none d t recursive);
    of_readers = rw f.no_readers (Worth-none d t recursive);
    balance = λ P. rw f.all_sent (omega arith);
  }
