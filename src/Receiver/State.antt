-- ===== src/Receiver/State.antt =====
-- `FileInformation` and the variables of `escp_receiver`.
use escp.Base.{ℕ, HashMap, empty_map, Bool, false, [], List, Text}
use escp.Base.Int.{ℤ, pos, negsuc}

pub record FileInformation : Type 0 where
  pub path : Text
  pub fino : ℕ
  pub sz : ℤ
  pub blocks : ℤ
  pub fd : ℕ
  pub mode : ℕ
  pub uid : ℕ
  pub gid : ℕ
  pub atim_sec : ℤ
  pub atim_nano : ℤ
  pub mtim_sec : ℤ
  pub mtim_nano : ℤ
  pub crc : ℕ

-- `impl Default`: the number of blocks is -1 as long as it is not known.
abbrev pub info_default : FileInformation
info_default = record {
  path = [];
  fino = 0;
  sz = pos 0;
  blocks = negsuc 0;
  fd = 0;
  mode = 0;
  uid = 0;
  gid = 0;
  atim_sec = pos 0;
  atim_nano = pos 0;
  mtim_sec = pos 0;
  mtim_nano = pos 0;
  crc = 0;
}

-- The hash map by file number, the two queues (front first) and the finished files (a Vec, last
-- pushed last).
pub record Receiver : Type 0 where
  pub files_hash : HashMap FileInformation
  pub files_add : List ℕ
  pub files_close : List ℕ
  pub files_complete : List FileInformation
  pub file_count_in : ℕ
  pub file_count_out : ℕ
  pub transfer_complete : Bool

abbrev pub receiver_start : Receiver
receiver_start = record {
  files_hash = empty_map;
  files_add = [];
  files_close = [];
  files_complete = [];
  file_count_in = 0;
  file_count_out = 0;
  transfer_complete = false;
}
