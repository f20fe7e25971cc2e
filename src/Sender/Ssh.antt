-- ===== src/Sender/Ssh.antt =====
-- The start of `escp_sender` (src/escp/sender.rs): the command that runs the receiver over ssh.
pub mod Options
pub mod Command
mod Tests
use escp.Base.{ℕ, Bool, List, [], ◌∷◌, ◌++◌, Option, none, some, Text, codes, if◌then◌else◌}
use escp.Str.Decimal.{to_string}
use escp.Config.Flags.{Flags}
use escp.Dest.{DestParts, parse_dest}

-- An option with its value, if the value is not empty.
unfoldable pub given : Text → Text → List Text
given option [] = []
given option (c ∷ value) = option ∷ (c ∷ value) ∷ []

unfoldable pub on : Bool → List Text → List Text
on b words = if b then words else []

-- The port of the destination comes before that of the flags.
unfoldable pub port_str : Flags → Option ℕ → Text
port_str f none = to_string f.ssh_port
port_str f (some p) = to_string p

unfoldable pub target : Text → Option Text → Text
target host none = host
target host (some user) = user ++ b'@' ∷ host

unfoldable pub remote_command : Flags → List Text
remote_command f =
    if f.verbose
    then (codes "RUST_BACKTRACE=1 " ++ f.escp) ∷ codes "-v" ∷ codes "--server" ∷ []
    else f.escp ∷ codes "--server" ∷ []

unfoldable pub options : Flags → List Text
unfolding given on
options f =
    given (codes "-i") f.identity
    ++ codes "-t" ∷ []
    ++ given (codes "-o") f.ssh_option
    ++ on f.ipv4 (codes "-4" ∷ [])
    ++ on f.ipv6 (codes "-6" ∷ [])
    ++ on f.batch_mode (codes "-o" ∷ codes "BatchMode=True" ∷ [])
    ++ given (codes "-F") f.ssh_config
    ++ given (codes "-J") f.jump_host
    ++ given (codes "-c") f.cipher
    ++ on f.agent (codes "-A" ∷ [])

unfoldable pub ssh_args : Flags → Text → Option Text → Option ℕ → List Text
unfolding options port_str target remote_command
ssh_args f host user port =
    f.ssh ∷ codes "-p" ∷ port_str f port ∷ options f ++ target host user ∷ remote_command f

-- How the sender reaches the receiver: not at all, without a host; over the management socket; or
-- through the command.
pub data Link : Type 0 where
  no_host : Link
  over_socket : Text → Link
  over_ssh : List Text → Link

-- The management socket comes first, if there is one.
unfoldable pub by_mgmt : Text → List Text → Link
by_mgmt [] args = over_ssh args
by_mgmt (c ∷ mgmt) args = over_socket (c ∷ mgmt)

unfoldable pub with_parts : Flags → DestParts → Option Text → Link
unfolding ssh_args by_mgmt
with_parts f d none = no_host
with_parts f d (some host) = by_mgmt f.mgmt (ssh_args f host d.user d.port)

unfoldable pub open_connection : Flags → Link
unfolding with_parts
open_connection f = let d = parse_dest f.destination in with_parts f d d.host
