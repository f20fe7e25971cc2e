-- ===== src/Str/Paths.antt =====
-- Rust's `Path` on Unix, on byte lists: `join`, `parent`, `starts_with`.
pub mod Canonical
use escp.Base.{
  Bool, true, false, not, ◌&&◌, ◌||◌, List, [], ◌∷◌, ◌++◌, Option, none, some, Text, text_eq, ◌==◌,
  if◌then◌else◌,
}
use escp.Str.Defs.{starts_with, split_on}

-- `Path::join`
unfoldable pub last_is_slash : Text → Bool
last_is_slash [] = false
last_is_slash (c ∷ []) = c == b'/'
last_is_slash (c ∷ d ∷ s) = last_is_slash (d ∷ s)

unfoldable pub join : Text → Text → Text
unfolding last_is_slash
join [] b = b
join (c ∷ a) b =
    if starts_with b'/' b
    then b
    else if last_is_slash (c ∷ a)
    then (c ∷ a) ++ b
    else (c ∷ a) ++ b'/' ∷ b

-- The components of the text are all empty or `.`; `dot` tells whether a dot was read in this one.
abbrev pub no_component : Bool → Text → Bool
no_component dot [] = true
no_component dot (c ∷ s) =
    let next = no_component false s in
    let after = no_component true s in if c == b'/' then next else not dot && c == b'.' && after

-- `path.parent()` is `None`: the path is empty, or it is the root.
unfoldable pub no_parent : Text → Bool
no_parent [] = true
no_parent (c ∷ s) = c == b'/' && no_component false s

-- A component that counts: not empty, and not `.`.
unfoldable pub is_part : Text → Bool
is_part p = not (text_eq p []) && not (text_eq p (b'.' ∷ []))

parts : List Text → List Text
unfolding is_part
parts [] = []
parts (p ∷ ps) = if is_part p then p ∷ parts ps else parts ps

-- A leading `.` of a relative path is a component.
relative : List Text → List Text
unfolding parts
relative [] = []
relative (p ∷ ps) = if text_eq p (b'.' ∷ []) then p ∷ parts ps else parts (p ∷ ps)

-- The components; the root is one.
pub components : Text → List Text
unfolding relative
components s =
    if starts_with b'/' s then (b'/' ∷ []) ∷ parts (split_on b'/' s) else relative (split_on b'/' s)

begins_with : List Text → List Text → Bool
begins_with [] ps = true
begins_with (q ∷ qs) [] = false
begins_with (q ∷ qs) (p ∷ ps) = text_eq q p && begins_with qs ps

-- `path.starts_with(prefix)`, by whole components.
unfoldable pub path_starts_with : Text → Text → Bool
unfolding components begins_with
path_starts_with path prefix = begins_with (components prefix) (components path)

-- The components up to the last one that counts: trailing separators and dots are dropped.
unfoldable pub grow : Text → List Text → List Text
unfolding is_part
grow p [] = if is_part p then p ∷ [] else []
grow p (q ∷ qs) = p ∷ q ∷ qs

unfoldable pub trim_parts : List Text → List Text
unfolding grow
trim_parts [] = []
trim_parts (p ∷ ps) = grow p (trim_parts ps)

-- A leading dot of a relative path counts, too.
unfoldable pub grow_first : Text → List Text → List Text
unfolding is_part
grow_first p [] = if is_part p || text_eq p (b'.' ∷ []) then p ∷ [] else []
grow_first p (q ∷ qs) = p ∷ q ∷ qs

unfoldable pub trim_relative : List Text → List Text
unfolding grow_first
trim_relative [] = []
trim_relative (p ∷ ps) = grow_first p (trim_parts ps)

unfoldable pub join_parts : List Text → Text
join_parts [] = []
join_parts (p ∷ []) = p
join_parts (p ∷ q ∷ ps) = p ++ b'/' ∷ join_parts (q ∷ ps)

unfoldable pub but_last : List Text → List Text
but_last [] = []
but_last (p ∷ []) = []
but_last (p ∷ q ∷ ps) = p ∷ but_last (q ∷ ps)

unfoldable pub last_of : List Text → Option Text
last_of [] = none
last_of (p ∷ []) = some p
last_of (p ∷ q ∷ ps) = last_of (q ∷ ps)

unfoldable pub behind_root : List Text → List Text
behind_root [] = []
behind_root (p ∷ ps) = ps

-- The text before the last component, if there is one.
unfoldable pub up_from : (List Text → Text) → List Text → Option Text
up_from text [] = none
up_from text (p ∷ ps) = some (text (but_last (p ∷ ps)))

unfoldable pub rooted_text : List Text → Text
rooted_text ps = b'/' ∷ join_parts (trim_parts ps)

unfoldable pub relative_text : List Text → Text
relative_text ps = join_parts (trim_relative ps)

-- `path.parent()`
unfoldable pub parent : Text → Option Text
unfolding trim_parts trim_relative join_parts but_last behind_root up_from rooted_text relative_text
parent s =
    if starts_with b'/' s
    then up_from rooted_text (trim_parts (behind_root (split_on b'/' s)))
    else up_from relative_text (trim_relative (split_on b'/' s))

unfoldable pub normal : Option Text → Option Text
normal none = none
normal (some p) = if text_eq p (b'.' ∷ []) || text_eq p (b'.' ∷ b'.' ∷ []) then none else some p

-- `path.file_name()`
unfoldable pub file_name : Text → Option Text
unfolding trim_parts trim_relative last_of behind_root normal
file_name s =
    if starts_with b'/' s
    then normal (last_of (trim_parts (behind_root (split_on b'/' s))))
    else normal (last_of (trim_relative (split_on b'/' s)))
