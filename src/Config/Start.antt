-- ===== src/Config/Start.antt =====
-- `start_escp` and `do_escp` of src/escp.rs as a whole: the configuration file, the flags, and the
-- choice between sender and receiver.
pub mod Decided
use escp.Base.{
  ℕ, Bool, true, false, not, ◌&&◌, List, [], ◌∷◌, Option, none, some, Text, length, ltb,
  if◌then◌else◌,
}
use escp.Config.Flags.{Flags}
use escp.Config.Machine.{Doc, Raw, Conf, Machine, load_yaml, configure}
use escp.Config.Settings.{Settings, settings}

-- `source.last()`, or the empty string.
unfoldable pub last_or_empty : List Text → Text
last_or_empty [] = []
last_or_empty (s ∷ []) = s
last_or_empty (s ∷ t ∷ ss) = last_or_empty (t ∷ ss)

-- `truncate(l - 1)`, if there is one at least.
unfoldable pub but_last : List Text → List Text
but_last [] = []
but_last (s ∷ []) = []
but_last (s ∷ t ∷ ss) = s ∷ but_last (t ∷ ss)

unfoldable pub split_destination : Flags → Flags
unfolding last_or_empty but_last
split_destination f = record f { destination = last_or_empty f.source; source = but_last f.source }

-- How it ends: a panic at the configuration file; an unknown engine; the licence; the help, for want of
-- arguments; or the receiver or the sender runs.
pub data Started : Type 0 where
  panics : Started
  unknown_engine : Started
  prints_license : Started
  prints_help : Started
  runs_receiver : Machine → Settings → Flags → Started
  runs_sender : Machine → Settings → Flags → Started

unfoldable pub do_escp : Machine → Settings → Flags → Started
do_escp m a f = if a.do_server then runs_receiver m a f else runs_sender m a f

unfoldable pub is_empty : Text → Bool
is_empty [] = true
is_empty (c ∷ s) = false

-- `l` is the number of arguments before the destination was taken from them.
unfoldable pub finish : ℕ → Machine → Flags → Option Settings → Started
unfolding do_escp is_empty
finish l m f none = unknown_engine
finish l m f (some a) =
    if f.license
    then prints_license
    else if ltb l 2 && not f.server && is_empty f.file_list
    then prints_help
    else do_escp m a f

unfoldable pub with_machine : Settings → Flags → Option Machine → Started
unfolding finish split_destination
with_machine a f none = panics
with_machine a f (some m) =
    let f' = split_destination f in finish (length f.source) m f' (settings a f')

unfoldable pub with_config :
    (Text → Option (List ℕ)) → Machine → Settings → Flags → Option Conf → Started
unfolding with_machine
with_config decode m a f none = panics
with_config decode m a f (some conf) = with_machine a f (configure decode conf m)

-- `load` and `decode` are those of the YAML and hex libraries; `m` and `a` are the arguments that libdtn
-- makes, and `f` the options as they were given.
unfoldable pub start_escp :
    (Text → Option (List Doc))
    → (Text → Option (List ℕ))
    → Raw
    → Machine
    → Settings
    → Flags
    → Started
unfolding with_config
start_escp load decode raw m a f = with_config decode m a f (load_yaml load raw)
