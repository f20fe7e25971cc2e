-- ===== src/Delivery.antt =====
-- The sender's announcements in the hands of the receiver: `iterate_files` (src/escp/sender.rs), the
-- tables (src/escp/file_spec.rs), and the branch for `msg_file_spec` of `escp_receiver`
-- (src/escp/receiver.rs).
pub mod Rooted
pub mod Entered
pub mod Whole
pub mod Reports
mod Tests
use escp.Base.{
  ℕ, List, [], ◌∷◌, ◌++◌, Option, none, some, Bool, true, false, ◌&&◌, ltb, Text, if◌then◌else◌,
}
use escp.Wire.Flat.{Flatbuffers}
use escp.Wire.FileSpec.{FileList}
use escp.Wire.FileSpec.ListTable.{create_file_list, read_file_list}
use escp.Receiver.State.{FileInformation, info_default, Receiver}
use escp.Receiver.Entries.{handle_file_spec}
use escp.Sender.Batch.{Entry}

unfoldable pub then_all : (Receiver → Option Receiver) → Option Receiver → Option Receiver
then_all next none = none
then_all next (some r) = next r

-- What zstd does with the table of a message: its length in bytes, and whether `compress` gets it into
-- the sender's buffer of 49152 bytes and `decompress` into the receiver's of 131072.
pub record Zstd : Type 0 where
  pub len : FileList → ℕ
  pub compresses : FileList → Bool
  pub decompresses : FileList → Bool

-- A table of more than 160 bytes is sent compressed, and both sides `expect` the buffers to do.
unfoldable pub arrives : Zstd → FileList → Bool
arrives z m = if ltb 160 (z.len m) then z.compresses m && z.decompresses m else true

-- The messages one after the other, each as a table in between; `none` is a panic of the sender, which
-- cannot compress a message, or of the receiver.
module _ (fb : Flatbuffers) (E : Type 0) (z : Zstd) where
  unfoldable pub handle_all : List FileList → Receiver → Option Receiver
  unfolding then_all arrives
  handle_all [] r = some r
  handle_all (m ∷ ms) r =
      let rest =
        then_all (handle_all ms)
          (handle_file_spec (read_file_list fb (create_file_list fb {E = E} m)) r) in
      if arrives z m then rest else none

-- The name below the root of the destination, or by itself if there is no root.
abbrev pub below_root : Text → Text → Text
below_root [] name = name
below_root (c ∷ root) name = ((c ∷ root) ++ b'/' ∷ []) ++ name

-- What the receiver is to know of an announced file: where it goes, its size, and the metadata if it is
-- to be preserved; the number of blocks is not known yet.
abbrev pub planned : Bool → Text → Entry → FileInformation
planned true root e = record info_default {
  path = below_root root e.fi;
  fino = e.fino;
  sz = e.st.st_size;
  mode = e.st.st_mode;
  uid = e.st.st_uid;
  gid = e.st.st_gid;
  atim_sec = e.st.atim_sec;
  atim_nano = e.st.atim_nano;
  mtim_sec = e.st.mtim_sec;
  mtim_nano = e.st.mtim_nano;
}
planned false root e = record info_default {
  path = below_root root e.fi;
  fino = e.fino;
  sz = e.st.st_size;
}
