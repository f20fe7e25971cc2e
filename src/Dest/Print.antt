-- ===== src/Dest/Print.antt =====
-- Destinations written out, as a user types them.
use escp.Base.{ℕ, [], ◌∷◌, ◌++◌, Option, none, some, Text, codes}
use escp.Str.Decimal.{to_string}

abbrev pub at_user : Option Text → Text → Text
at_user none rest = rest
at_user (some u) rest = u ++ b'@' ∷ rest

abbrev pub at_port : Option ℕ → Text
at_port none = []
at_port (some n) = b':' ∷ to_string n

abbrev pub at_path : Option Text → Text
at_path none = []
at_path (some p) = b'/' ∷ p

-- scp://[user@]host[:port][/path]
abbrev pub print_uri : Option Text → Text → Option ℕ → Option Text → Text
print_uri user host port path =
    codes "scp://" ++ at_user user ((host ++ at_port port) ++ at_path path)

-- [user@]host:path
abbrev pub print_plain : Option Text → Text → Text → Text
print_plain user host path = at_user user host ++ b':' ∷ path
