-- ===== src/Wire/FileSpec.antt =====
-- The tables `File` and `ESCP_file_list` (src/escp/file_spec.rs), as their accessors present them.
pub mod FileTable
pub mod ListTable
use escp.Base.{ℕ, Bool, false, List, Option, none, Text}
use escp.Base.Int.{ℤ, pos}

pub record File : Type 0 where
  pub fino : ℕ
  pub name : Option Text
  pub mode : ℕ
  pub uid : ℕ
  pub gid : ℕ
  pub sz : ℤ
  pub blocks : ℤ
  pub atim_sec : ℤ
  pub atim_nano : ℤ
  pub mtim_sec : ℤ
  pub mtim_nano : ℤ
  pub crc : ℕ
  pub complete : ℕ
  pub errmsg : Option Text
  pub errno : ℤ

-- `..Default::default()`
abbrev pub file_default : File
file_default = record {
  fino = 0;
  name = none;
  mode = 0;
  uid = 0;
  gid = 0;
  sz = pos 0;
  blocks = pos 0;
  atim_sec = pos 0;
  atim_nano = pos 0;
  mtim_sec = pos 0;
  mtim_nano = pos 0;
  crc = 0;
  complete = 0;
  errmsg = none;
  errno = pos 0;
}

pub record FileList : Type 0 where
  pub root : Option Text
  pub files : Option (List File)
  pub complete : Bool
  pub fc_stat : Bool

abbrev pub file_list_default : FileList
file_list_default = record { root = none; files = none; complete = false; fc_stat = false }
