-- ===== src/Sender/Walk.antt =====
-- `iterate_file_worker` and `iterate_dir_worker`: from the names on the command line to the messages
-- with the files that were opened.
pub mod Found
pub mod Handling
pub mod Entries
pub mod Worth
pub mod Outlook
pub mod Back
pub mod Exact
pub mod Numbers
pub mod Bounded
pub mod Example
mod Tests
use escp.Base.{
  ℕ, zero, suc, ◌+◌, ◌*◌, ◌/◌, ◌%◌, ◌≡◌, ◌≢◌, Bool, true, false, not, ◌&&◌, ◌||◌, List, [], ◌∷◌,
  ◌++◌, Option, none, some, Text, text_eq, ◌==◌, if◌then◌else◌,
}
use escp.Str.Paths.{join, path_starts_with}
use escp.Receiver.Opening.{Opened, opened, failed, einval, emfile}
use escp.Sender.Batch.{Stat, Entry}
use escp.Sender.Files.{
  Attempt, Disk, Handled, Item, Listing, Opener, Verdict, after_round, announces, by_stat, dt_dir,
  dt_reg, ends_worker, enters, file_type, gives_up, got, handle, ignored, listing, message_name,
  open_loop, open_once, path_of, refused, s_ifdir, s_iflnk, s_ifreg, tries_again, waits,
}

-- A directory that is being read, with the entries left.
pub record Reader : Type 0 where
  pub prefix : Text
  pub filename : Text
  pub left : List (Text × ℕ)

unfoldable pub is_dots : Text → Bool
unfolding text_eq
is_dots s = text_eq s (b'.' ∷ []) || text_eq s (b'.' ∷ b'.' ∷ [])

-- What an entry of a directory adds to the items: regular files and directories.
unfoldable pub entry_items : Text → Text → Text × ℕ → List Item
unfolding is_dots join
entry_items prefix filename (s, d_type) =
    if not (is_dots s) && (d_type == dt_reg || d_type == dt_dir)
    then record { prefix = prefix; filename = join filename s; destname = [] } ∷ []
    else []

-- The channels and counters the workers share: `files` and `dirs`, the directories being read, the
-- entries numbered and not sent yet, those sent, `GLOBAL_FINO`, `GLOBAL_FILEOPEN_TAIL`, and
-- `GLOBAL_FILEOPEN_CLEANUP`. `exited`: a directory worker has ended the process.
pub record Walk : Type 0 where
  pub files : List Item
  pub dirs : List (Text × Text)
  pub readers : List Reader
  pub numbered : List Entry
  pub sent : List Entry
  pub fino : ℕ
  pub tail : ℕ
  pub cleanup : ℕ
  pub exited : Bool

-- What a worker's verdict does to what they share.
unfoldable pub settle : Verdict → Walk → Walk
settle ignored s = s
settle (enters p f) s = record s { cleanup = suc s.cleanup; dirs = s.dirs ++ (p, f) ∷ [] }
settle (announces name st fd) s = record s {
  fino = suc s.fino;
  numbered = s.numbered ++ record { fi = name; fino = suc s.fino; st = st } ∷ [];
}
settle ends_worker s = s
settle waits s = s

-- A directory worker has taken the directory: EMFILE is tried again, another error ends the process.
unfoldable pub enter : Text × Text → Listing → Walk → Walk
enter (p, f) (listing es) s = record s {
  readers = record { prefix = p; filename = f; left = es } ∷ s.readers;
}
enter (p, f) (refused errno) s =
    if errno == emfile then record s { dirs = (p, f) ∷ s.dirs } else record s { exited = true }

-- One step of a file worker or a directory worker. Workers take from the front of a channel, but one
-- can overtake another after that, so that a step may be about any place of it. The channels have no
-- bound here: a worker that would wait for room in one is a worker that does not take its step yet.
-- A path that is no UTF-8, which ends a worker by a panic, does not occur.
module _ (d : Disk) (recursive : Bool) where
  pub data Step : Walk → Walk → Type 0 where
    handles :
        (s : Walk) (a b : List Item) (i : Item) (w : Opener) (n : ℕ)
        → s.files ≡ a ++ i ∷ b
        → (handle d recursive n i w).verdict ≢ waits
        → Step s (settle (handle d recursive n i w).verdict (record s { files = a ++ b }))
    sends :
        (s : Walk) (a b : List Entry) (e : Entry)
        → s.numbered ≡ a ++ e ∷ b
        → Step s (record s { numbered = a ++ b; sent = s.sent ++ e ∷ [] })
    enters_dir :
        (s : Walk) (a b : List (Text × Text)) (x : Text × Text) (n : ℕ)
        → s.dirs ≡ a ++ x ∷ b
        → Step s (enter x (d.open_dir n (join x.0 x.1)) (record s { dirs = a ++ b }))
    reads :
        (s : Walk) (a b : List Reader) (r : Reader) (e : Text × ℕ) (es : List (Text × ℕ))
        → s.readers ≡ a ++ r ∷ b
        → r.left ≡ e ∷ es
        → Step s (record s {
          readers = a ++ record r { left = es } ∷ b;
          files = s.files ++ entry_items r.prefix r.filename e;
        })
    closes_dir :
        (s : Walk) (a b : List Reader) (r : Reader)
        → s.readers ≡ a ++ r ∷ b
        → r.left ≡ []
        → Step s (record s { readers = a ++ b; tail = suc s.tail })

  pub data Steps : Walk → Walk → Type 0 where
    none_left : (s : Walk) → Steps s s
    then_step : {s t u : Walk} → Step s t → Steps t u → Steps s u

-- The walk from the items that `iterate_files` sends. It has counted itself in `cleanup` while it fed
-- the workers, and in `tail` when it was done.
unfoldable pub start : List Item → Walk
start is = record {
  files = is;
  dirs = [];
  readers = [];
  numbered = [];
  sent = [];
  fino = 0;
  tail = 1;
  cleanup = 1;
  exited = false;
}

-- Nothing is left to do.
pub record Finished (s : Walk) : Type 0 where
  pub no_files : s.files ≡ []
  pub no_dirs : s.dirs ≡ []
  pub no_readers : s.readers ≡ []
  pub all_sent : s.numbered ≡ []
