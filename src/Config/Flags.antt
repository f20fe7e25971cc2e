-- ===== src/Config/Flags.antt =====
-- The options of the command line (`EScp_Args` of src/escp.rs).
use escp.Base.{ℕ, Bool, false, List, [], Text, codes}

-- A text that is not given has its default, which is empty but for `limit`, `ssh`, `escp`, `block_sz`
-- and `io_engine`.
pub record Flags : Type 0 where
  pub source : List Text
  pub destination : Text
  pub file_list : Text
  pub ssh_port : ℕ
  pub escp_port : ℕ
  pub escp_portrange : ℕ
  pub verbose : Bool
  pub log_file : Text
  pub quiet : Bool
  pub limit : Text
  pub preserve : Bool
  pub compression : Bool
  pub sparse : Bool
  pub recursive : Bool
  pub ssh_option : Text
  pub ssh : Text
  pub escp : Text
  pub block_sz : Text
  pub io_engine : Text
  pub threads : ℕ
  pub mgmt : Text
  pub bits : Bool
  pub nodirect : Bool
  pub nochecksum : Bool
  pub writechecksum : Bool
  pub agent : Bool
  pub cipher : Text
  pub identity : Text
  pub ssh_config : Text
  pub jump_host : Text
  pub batch_mode : Bool
  pub license : Bool
  pub server : Bool
  pub three : Bool
  pub s : Bool
  pub o : Bool
  pub disable_strict_filename : Bool
  pub ipv4 : Bool
  pub ipv6 : Bool
  pub ssh_from_origin : Bool

-- What clap fills in when nothing is given.
abbrev pub flags_default : Flags
flags_default = record {
  source = [];
  destination = [];
  file_list = [];
  ssh_port = 22;
  escp_port = 1232;
  escp_portrange = 10;
  verbose = false;
  log_file = [];
  quiet = false;
  limit = codes "0";
  preserve = false;
  compression = false;
  sparse = false;
  recursive = false;
  ssh_option = [];
  ssh = codes "ssh";
  escp = codes "escp";
  block_sz = codes "1M";
  io_engine = codes "posix";
  threads = 4;
  mgmt = [];
  bits = false;
  nodirect = false;
  nochecksum = false;
  writechecksum = false;
  agent = false;
  cipher = [];
  identity = [];
  ssh_config = [];
  jump_host = [];
  batch_mode = false;
  license = false;
  server = false;
  three = false;
  s = false;
  o = false;
  disable_strict_filename = false;
  ipv4 = false;
  ipv6 = false;
  ssh_from_origin = false;
}
