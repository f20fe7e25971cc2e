-- ===== src/Receiver/Entries.antt =====
-- The `msg_file_spec` branch of `escp_receiver`: file entries and file completions.
use escp.Base.{ℕ, List, [], ◌∷◌, ◌++◌, Option, none, some, Text, HashMap, insert, if◌then◌else◌}
use escp.Base.Int.{pos, ltb_ℤ, eqb_ℤ}
use escp.Wire.FileSpec.{File, FileList}
use escp.Receiver.State.{FileInformation, info_default, Receiver}

-- The entry of the map, or the default when a message came before the other of its file.
unfoldable pub or_default : Option FileInformation → FileInformation
or_default none = info_default
or_default (some fi) = fi

unfoldable pub known : ℕ → HashMap FileInformation → FileInformation
unfolding or_default
known k h = or_default (h k)

unfoldable pub full_path : Text → Text → Text
full_path [] name = name
full_path (c ∷ root) name = (c ∷ root) ++ b'/' ∷ name

unfoldable pub from_spec : Text → Text → File → FileInformation → FileInformation
unfolding full_path
from_spec root name e fi = record fi {
  path = full_path root name;
  sz = if eqb_ℤ fi.sz (pos 0) then e.sz else fi.sz;
  fino = e.fino;
  mode = e.mode;
  uid = e.uid;
  gid = e.gid;
  atim_sec = e.atim_sec;
  atim_nano = e.atim_nano;
  mtim_sec = e.mtim_sec;
  mtim_nano = e.mtim_nano;
}

unfoldable pub from_completion : File → FileInformation → FileInformation
from_completion e fi = record fi {
  blocks = e.blocks;
  sz = if ltb_ℤ (pos 0) e.sz then e.sz else fi.sz;
}

-- An entry with no name panics: `none`.
unfoldable pub spec_entry : Text → File → Receiver → Option Receiver
spec_entry root e r = elim e.name [
  | none ↦ none
  | some name ↦ some (record r {
    files_hash = insert e.fino (from_spec root name e (known e.fino r.files_hash)) r.files_hash;
    files_add = r.files_add ++ e.fino ∷ [];
  })
]

unfoldable pub completion_entry : File → Receiver → Receiver
completion_entry e r = record r {
  files_hash = insert e.fino (from_completion e (known e.fino r.files_hash)) r.files_hash;
  files_close = r.files_close ++ e.fino ∷ [];
}

unfoldable pub spec_entries : Text → List File → Receiver → Option Receiver
spec_entries root [] r = some r
spec_entries root (e ∷ es) r = elim (spec_entry root e r) [
  | none ↦ none
  | some r' ↦ spec_entries root es r'
]

unfoldable pub completion_entries : List File → Receiver → Receiver
completion_entries [] r = r
completion_entries (e ∷ es) r = completion_entries es (completion_entry e r)

unfoldable pub entries : Option Text → List File → Receiver → Option Receiver
entries none es r = some (completion_entries es r)
entries (some root) es r = spec_entries root es r

-- A list with a root brings files, one without brings completions; with no `files` it panics.
unfoldable pub handle_file_spec : FileList → Receiver → Option Receiver
unfolding entries
handle_file_spec l r = elim l.files [ none ↦ none | some es ↦ entries l.root es r ]
