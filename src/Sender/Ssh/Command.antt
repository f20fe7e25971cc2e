-- ===== src/Sender/Ssh/Command.antt =====
-- The shape of the command line of ssh.
use escp.Base.{ℕ, ◌≡◌, ◌≢◌, Bool, true, false, List, [], ◌∷◌, ◌++◌, Option, none, some, Text, codes}
use escp.Str.Decimal.{to_string}
use escp.Sender.Ssh.Options.{Complete}
use escp.Dest.{DestParts}
use escp.Config.Flags.{Flags}
use escp.Sender.Ssh.{Link, no_host, over_socket, over_ssh}

-- The options of ssh that stand alone, and those with a value.
pub data IsFlag : Text → Type 0 where
  tty : IsFlag (codes "-t")
  only_ipv4 : IsFlag (codes "-4")
  only_ipv6 : IsFlag (codes "-6")
  forwards_agent : IsFlag (codes "-A")

pub data IsValued : Text → Type 0 where
  port_word : IsValued (codes "-p")
  identity_word : IsValued (codes "-i")
  option_word : IsValued (codes "-o")
  config_file_word : IsValued (codes "-F")
  jump_host_word : IsValued (codes "-J")
  cipher_word : IsValued (codes "-c")

-- Words that are all options or values of options.
pub data OnlyOptions : List Text → Type 0 where
  no_more : OnlyOptions []
  a_flag : (s : Text) (ws : List Text) → IsFlag s → OnlyOptions ws → OnlyOptions (s ∷ ws)
  a_value : (s v : Text) (ws : List Text) → IsValued s → OnlyOptions ws → OnlyOptions (s ∷ v ∷ ws)

-- The port: the destination's, or else that of the flags.
pub data IsPort (f : Flags) : Option ℕ → ℕ → Type 0 where
  of_destination : (n : ℕ) → IsPort f (some n) n
  of_flags : IsPort f none f.ssh_port

-- The word for the destination: the host, behind the user if there is one.
pub data IsTarget (host : Text) : Option Text → Text → Type 0 where
  host_only : IsTarget host none host
  with_user : (user : Text) → IsTarget host (some user) (user ++ b'@' ∷ host)

-- The command that ssh runs there: the receiver, with a backtrace and its messages if wanted.
abbrev pub IsCommand : Bool → Text → List Text → Type 0
IsCommand true escp ws =
    ws ≡ (codes "RUST_BACKTRACE=1 " ++ escp) ∷ codes "-v" ∷ codes "--server" ∷ []
IsCommand false escp ws = ws ≡ escp ∷ codes "--server" ∷ []

-- The words up to the destination, the destination, and the command.
pub record Shape (f : Flags) (host : Text) (user : Option Text) (port : Option ℕ) (args : List Text)
    : Type 0 where
  pub number : ℕ
  pub is_port : IsPort f port number
  pub words : List Text
  pub word : Text
  pub is_target : IsTarget host user word
  pub command : List Text
  pub is_command : IsCommand f.verbose f.escp command
  pub in_order : args ≡ f.ssh ∷ (codes "-p" ∷ to_string number ∷ words) ++ word ∷ command
  pub only_options : OnlyOptions (codes "-p" ∷ to_string number ∷ words)
  pub all_options : Complete f words

-- What each way to connect says of the destination.
abbrev pub Connects : Flags → DestParts → Link → Type 0
Connects f d no_host = d.host ≡ none
Connects f d (over_socket path) = (path ≡ f.mgmt) × (path ≢ [])
Connects f d (over_ssh args) =
    (f.mgmt ≡ []) × ((host : Text) × (d.host ≡ some host) × Shape f host d.user d.port args)
