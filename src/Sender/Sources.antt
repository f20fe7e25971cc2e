-- ===== src/Sender/Sources.antt =====
-- The part of `iterate_files` that turns the command line and the file list into items for the file
-- workers.
pub mod Landing
mod Tests
use escp.Base.{
  ℕ, Bool, true, false, not, ◌&&◌, List, [], ◌∷◌, ◌++◌, Option, none, some, Text, length, ◌==◌,
  if◌then◌else◌,
}
use escp.Str.{split_on}
use escp.Str.Paths.{parent, file_name}
use escp.Sender.Files.{Item}

unfoldable pub item : Text → Option Text → Option Text → Option Item
item dest (some p) (some f) = some (record { prefix = p; filename = f; destname = dest })
item dest none f = none
item dest (some p) none = none

-- `parent().unwrap()` and `file_name().unwrap()`; `none` is a panic.
unfoldable pub item_of : Text → Text → Option Item
unfolding item parent file_name
item_of path dest = item dest (parent path) (file_name path)

-- `fs::canonicalize`, or the path as it is.
unfoldable pub canonical_or : Text → Option Text → Text
canonical_or fi none = fi
canonical_or fi (some path) = path

unfoldable pub add_item : Option Item → Option (List Item × Text) → Option (List Item × Text)
add_item none rest = none
add_item (some i) none = none
add_item (some i) (some (is, dest)) = some (i ∷ is, dest)

-- The loop over the sources. `single`: there is one, and the recursive mode is off; its destination
-- goes with the item, and the path of the destination is then empty.
unfoldable pub source_loop :
    (Text → Option Text) → Bool → Text → List Text → Option (List Item × Text)
unfolding item_of canonical_or add_item
source_loop canonicalize single dest [] = some ([], dest)
source_loop canonicalize single dest ([] ∷ fis) = source_loop canonicalize single dest fis
source_loop canonicalize true dest ((c ∷ fi) ∷ fis) =
    add_item (item_of (canonical_or (c ∷ fi) (canonicalize (c ∷ fi))) dest)
      (source_loop canonicalize true [] fis)
source_loop canonicalize false dest ((c ∷ fi) ∷ fis) =
    add_item (item_of (canonical_or (c ∷ fi) (canonicalize (c ∷ fi))) [])
      (source_loop canonicalize false dest fis)

-- The items, and the root that the announcements have.
unfoldable pub source_items :
    (Text → Option Text) → Bool → Text → List Text → Option (List Item × Text)
unfolding source_loop
source_items canonicalize recursive dest sources =
    source_loop canonicalize (length sources == 1 && not recursive) dest sources

-- What the YAML library makes of a document's element; a string in an array is `some`.
pub data Yaml : Type 0 where
  array : List (Option Text) → Yaml
  string : Text → Yaml
  other : Yaml

-- A file and its destination, from the file list.
abbrev pub ListEntry : Type 0
ListEntry = Text × Text

-- An array has a name, and a destination if it has two elements or more.
array_entry : List (Option Text) → List ListEntry
array_entry [] = []
array_entry (none ∷ []) = []
array_entry (some a ∷ []) = (a, []) ∷ []
array_entry (none ∷ b ∷ x) = []
array_entry (some a ∷ none ∷ x) = []
array_entry (some a ∷ some b ∷ x) = (a, b) ∷ []

yaml_entries : List Yaml → List ListEntry
unfolding array_entry
yaml_entries [] = []
yaml_entries (array x ∷ ys) = array_entry x ++ yaml_entries ys
yaml_entries (string s ∷ ys) = (s, []) ∷ yaml_entries ys
yaml_entries (other ∷ ys) = yaml_entries ys

documents : List (List Yaml) → List ListEntry
unfolding yaml_entries
documents [] = []
documents (d ∷ ds) = yaml_entries d ++ documents ds

-- `trim_end_matches("\r")`
keep_cr : ℕ → Text → Text
keep_cr c [] = if c == 13 then [] else c ∷ []
keep_cr c (d ∷ s) = c ∷ d ∷ s

trim_cr : Text → Text
unfolding keep_cr
trim_cr [] = []
trim_cr (c ∷ s) = keep_cr c (trim_cr s)

line_entries : List Text → List ListEntry
unfolding trim_cr
line_entries [] = []
line_entries ([] ∷ ls) = line_entries ls
line_entries ((c ∷ l) ∷ ls) = (trim_cr (c ∷ l), []) ∷ line_entries ls

-- The file list: YAML if it can be loaded, else a name on each line that is not empty.
unfoldable pub list_entries : (Text → Option (List (List Yaml))) → Text → List ListEntry
unfolding documents line_entries split_on
list_entries load_from_str content = elim (load_from_str content) [
  | some docs ↦ documents docs
  | none ↦ line_entries (split_on 10 content)
]

-- The list is popped from its end, each entry sent as an item; `none` is a panic.
feed_onto : List Item → List ListEntry → Option (List Item)
feed_onto sent [] = some sent
feed_onto sent ((name, dest) ∷ es) = elim (item_of name dest) [
  | none ↦ none
  | some i ↦ feed_onto (i ∷ sent) es
]

unfoldable pub feed_list : List ListEntry → Option (List Item)
unfolding feed_onto
feed_list es = feed_onto [] es
