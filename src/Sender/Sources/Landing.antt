-- ===== src/Sender/Sources/Landing.antt =====
-- Where a single source lands: from the command line to the paths that the receiver opens.
use escp.Base.{ℕ, ◌≡◌, ◌≢◌, refl, false, [], ◌∷◌, ◌++◌, Option, some, Text, Lacks}
use escp.Str.{split_once-append, split_once-Lacks}
use escp.Str.Paths.{join}
use escp.Str.Paths.Canonical.{IsName, IsCanonical, IsCanonical-IsSplit}
use escp.Receiver.Entries.{full_path}
use escp.Receiver.Opening.{candidates, up_to_nul}
use escp.Sender.Files.{Item, message_name, name_by}
use escp.Sender.Sources.{item, item_of, canonical_or, add_item, source_loop, source_items}

candidates-append :
    (dest name : Text)
    → Lacks 0 dest
    → Lacks 0 name
    → candidates (dest ++ 0 ∷ name) ≡ (dest, some (join dest name))
unfolding candidates up_to_nul
candidates-append dest name h k =
    rw (split_once-append 0 dest name h, split_once-Lacks 0 name k, candidates, up_to_nul) refl

candidates-name_by :
    (dest name : Text)
    → dest ≢ []
    → Lacks 0 dest
    → Lacks 0 name
    → candidates (name_by dest name) ≡ (dest, some (join dest name))
unfolding name_by
candidates-name_by [] name n h k = absurd (n refl)
candidates-name_by (c ∷ dest) name n h k = candidates-append (c ∷ dest) name h k

-- Where the item for a source points, and where the receiver puts the file.
pub record Lands (path dest name : Text) (i : Item) : Type 0 where
  pub at_source : join i.prefix i.filename ≡ path
  pub at_destination : candidates (full_path [] (message_name i)) ≡ (dest, some (join dest name))

-- A single source, without the recursive mode and with a canonical path, becomes one item, which
-- points at that path again, and the root of the announcements is empty; the receiver opens the
-- destination, or if that is a directory, the file's name inside it. The destination is not empty,
-- and neither it nor the name has a NUL.
pub source_items-Lands :
    (canonicalize : Text → Option Text) (c : ℕ) (fi dir name dest : Text)
    → canonicalize (c ∷ fi) ≡ some (dir ++ b'/' ∷ name)
    → IsCanonical dir
    → IsName name
    → dest ≢ []
    → Lacks 0 dest
    → Lacks 0 name
    → (i : Item) × ((source_items canonicalize false dest ((c ∷ fi) ∷ []) ≡ some (i ∷ [], []))
        × Lands (dir ++ b'/' ∷ name) dest name i)
unfolding source_items source_loop canonical_or item_of item add_item message_name full_path
source_items-Lands canonicalize c fi dir name dest q d n ne h k =
    let s = IsCanonical-IsSplit dir name d n in
    let i : Item = record { prefix = s.up; filename = name; destname = dest } in
    (
      i,
      (
        rw (q, s.parent_is, s.file_name_is) refl,
        record { at_source = s.joined; at_destination = candidates-name_by dest name ne h k },
      ),
    )
