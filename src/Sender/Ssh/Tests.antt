-- ===== src/Sender/Ssh/Tests.antt =====
-- A command line with a user, a port and a jump host.
use escp.Base.{codes, true}
use escp.Config.Flags.{Flags, flags_default}

abbrev jumping : Flags
jumping = record flags_default {
  destination = codes "scp://bob@x.org:22/d";
  jump_host = codes "gate";
  batch_mode = true;
}
