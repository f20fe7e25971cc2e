-- ===== src/Sender/Walk/Found.antt =====
-- What a walk is to find, by the tree on the disk alone.
use escp.Base.{
  ℕ, suc, ◌≡◌, ◌≢◌, ◌⊎◌, Bool, true, false, List, [], ◌∷◌, ◌++◌, Option, none, some, Text,
}
use escp.Str.Paths.{join, path_starts_with}
use escp.Receiver.Opening.{opened, failed, einval, emfile}
use escp.Sender.Batch.{Stat}
use escp.Sender.Files.{Disk, listing, refused, Item, s_ifdir, s_ifreg, file_type, dt_dir, dt_reg}

-- The tree, which does not change: the kind of file at a canonical path (`none` where `fstat` fails),
-- and the entries of a directory.
pub record Tree : Type 0 where
  pub stat_at : Text → Option Stat
  pub entries : Text → List (Text × ℕ)

-- The disk shows the tree: a canonical path is not empty; what the disk opens is what is there, and it refuses only for a while (EMFILE),
-- or the direct mode (EINVAL).
pub record Shows (t : Tree) (d : Disk) : Type 0 where
  pub paths : (path : Text) → d.canonicalize path ≢ some []
  pub stats :
      (n : ℕ) (path : Text) (direct : Bool) (fd : ℕ)
      → d.open_file n path direct ≡ opened fd
      → d.fstat (suc n) fd ≡ t.stat_at path
  pub refuses :
      (n : ℕ) (path : Text) (direct : Bool) (errno : ℕ)
      → d.open_file n path direct ≡ failed errno
      → (errno ≡ emfile) ⊎ ((errno ≡ einval) × (direct ≡ true))
  pub lists :
      (n : ℕ) (path : Text)
      → (d.open_dir n path ≡ listing (t.entries path)) ⊎ (d.open_dir n path ≡ refused emfile)

-- The entries that count: regular files and directories, but not the directory and its parent.
pub record Follows (name : Text) (d_type : ℕ) : Type 0 where
  pub not_self : name ≢ b'.' ∷ []
  pub not_parent : name ≢ b'.' ∷ b'.' ∷ []
  pub kind : (d_type ≡ dt_reg) ⊎ (d_type ≡ dt_dir)

-- The items that a directory's entries stand for, below the same prefix.
pub data Children (prefix filename : Text) : List (Text × ℕ) → List Item → Type 0 where
  no_entries : Children prefix filename [] []
  followed :
      (name : Text) (d_type : ℕ) (es : List (Text × ℕ)) (is : List Item)
      → Follows name d_type
      → Children prefix filename es is
      → Children prefix filename
          ((name, d_type) ∷ es)
          (record { prefix = prefix; filename = join filename name; destname = [] } ∷ is)
  skipped :
      (name : Text) (d_type : ℕ) (es : List (Text × ℕ)) (is : List Item)
      → (Follows name d_type → ⊥)
      → Children prefix filename es is
      → Children prefix filename ((name, d_type) ∷ es) is

-- The name under which a file is announced: its own, or the destination, a NUL, and its own.
pub data Named (i : Item) : Text → Type 0 where
  own_name : i.destname ≡ [] → Named i i.filename
  with_destination : i.destname ≢ [] → Named i (i.destname ++ 0 ∷ i.filename)

module _ (d : Disk) (t : Tree) (recursive : Bool) where
  -- The item is on the disk, below its prefix, and has that status.
  pub record Reached (i : Item) (st : Stat) : Type 0 where
    pub path : Text
    pub canonical : d.canonicalize (join i.prefix i.filename) ≡ some path
    pub below : path_starts_with path i.prefix ≡ true
    pub status : t.stat_at path ≡ some st

  -- Why an item is passed over.
  pub data Passed (i : Item) : Type 0 where
    missing : d.canonicalize (join i.prefix i.filename) ≡ none → Passed i
    outside :
        (path : Text)
        → d.canonicalize (join i.prefix i.filename) ≡ some path
        → path_starts_with path i.prefix ≡ false
        → Passed i
    without_status :
        (path : Text)
        → d.canonicalize (join i.prefix i.filename) ≡ some path
        → t.stat_at path ≡ none
        → Passed i
    special :
        (st : Stat) → Reached i st → file_type st ≢ s_ifdir → file_type st ≢ s_ifreg → Passed i
    flat : (st : Stat) → Reached i st → file_type st ≡ s_ifdir → recursive ≡ false → Passed i

  -- The names and statuses of the files that an item yields: none, the file, or what the entries of
  -- the directory yield.
  mutual
    pub data Yields : Item → List (Text × Stat) → Type 0 where
      nothing : (i : Item) → Passed i → Yields i []
      the_file :
          (i : Item) (st : Stat) (name : Text)
          → Reached i st
          → file_type st ≡ s_ifreg
          → Named i name
          → Yields i ((name, st) ∷ [])
      below_dir :
          (i : Item) (st : Stat) (is : List Item) (fs : List (Text × Stat))
          → Reached i st
          → file_type st ≡ s_ifdir
          → recursive ≡ true
          → Children i.prefix i.filename (t.entries (join i.prefix i.filename)) is
          → YieldsAll is fs
          → Yields i fs

    pub data YieldsAll : List Item → List (Text × Stat) → Type 0 where
      no_items : YieldsAll [] []
      an_item :
          (i : Item) (is : List Item) (fs gs : List (Text × Stat))
          → Yields i fs
          → YieldsAll is gs
          → YieldsAll (i ∷ is) (fs ++ gs)
