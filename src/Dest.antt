-- ===== src/Dest.antt =====
-- `parse_dest` of src/escp/sender.rs: the destination on the command line, plain or as a URI.
pub mod Print
pub mod RoundTrip
pub mod Errors
pub mod Tests
use escp.Base.{ℕ, ◌≡◌, refl, [], ◌∷◌, Option, none, some, Text, codes, if◌then◌else◌}
use escp.Str.{strip_prefix, starts_with, strip_suffix, split_once, rsplit_once}
use escp.Str.Decimal.{parse_uint}

pub record DestParts : Type 0 where
  pub user : Option Text
  pub host : Option Text
  pub port : Option ℕ
  pub dest : Option Text
  pub error : Option Text

abbrev pub host_missing : Text
host_missing = codes "Host not specified. Expected [user@]host:[path]"

-- The early returns with an error: no host, whatever else was read so far.
abbrev failed : Option Text → Option Text → Text → DestParts
failed user dest msg = record {
  user = user;
  host = none;
  port = none;
  dest = dest;
  error = some msg;
}

-- The user ends at the last `@`.
unfoldable pub take_user : Text → Option Text × Text
take_user s = elim (rsplit_once b'@' s) [ none ↦ (none, s) | some (u, rest) ↦ (some u, rest) ]

-- The path begins behind the first `/`.
unfoldable pub take_path : Text → Option Text × Text
take_path s = elim (split_once b'/' s) [ none ↦ (none, s) | some (h, p) ↦ (some p, h) ]

-- The last test of the URI branch: an empty host is an error, which keeps the port.
with_host : Option Text → Text → Option ℕ → Option Text → DestParts
with_host user [] port dest = record {
  user = user;
  host = none;
  port = port;
  dest = dest;
  error = some host_missing;
}
with_host user (c ∷ h) port dest = record {
  user = user;
  host = some (c ∷ h);
  port = port;
  dest = dest;
  error = none;
}

parse_u16 : Text → Option ℕ
parse_u16 s = parse_uint 65535 s

colon_port : Text → Option ℕ
colon_port s = elim (strip_prefix (b':' ∷ []) s) [ none ↦ none | some p ↦ parse_u16 p ]

after_bracket : Option Text → Option Text → Text → Text → DestParts
after_bracket user dest host [] = with_host user host none dest
after_bracket user dest host (c ∷ p) = elim (colon_port (c ∷ p)) [
  | some n ↦ with_host user host (some n) dest
  | none ↦ failed user dest (codes "Parsing port")
]

-- `host_part[1..]` drops the `[` that the caller has tested for.
tail : Text → Text
tail [] = []
tail (c ∷ s) = s

bracketed_host : Option Text → Option Text → Text → DestParts
unfolding after_bracket tail
bracketed_host user dest s = elim (rsplit_once b']' s) [
  | none ↦ failed user dest (codes "Bracketed IPv6 address is malformed")
  | some (h, p) ↦ after_bracket user dest (tail h) p
]

named_host : Option Text → Option Text → Text → DestParts
named_host user dest s = elim (rsplit_once b':' s) [
  | none ↦ with_host user s none dest
  | some (h, p) ↦ with_host user h (parse_u16 p) dest
]

parse_uri : Text → DestParts
parse_uri s =
    let (user, rest) = take_user s in
    let (dest, host_port) = take_path rest in
    if starts_with b'[' host_port
    then bracketed_host user dest host_port
    else named_host user dest host_port

-- `[addr]` without its brackets; any other host as it is.
unfoldable pub unbracket : Text → Text
unbracket s = elim (strip_prefix (b'[' ∷ []) s) [
  | none ↦ s
  | some t ↦ elim (strip_suffix b']' t) [ none ↦ s | some h ↦ h ]
]

plain_host : Option Text → Text → Text → DestParts
plain_host user [] path = failed user none host_missing
plain_host user (c ∷ h) path = record {
  user = user;
  host = some (unbracket (c ∷ h));
  port = none;
  dest = some path;
  error = none;
}

parse_plain : Text → DestParts
parse_plain s = elim (rsplit_once b':' s) [
  | none ↦ failed none none host_missing
  | some (user_host, path) ↦ let (user, host) = take_user user_host in plain_host user host path
]

pub parse_dest : Text → DestParts
parse_dest [] = failed none none (codes "Nothing to parse")
parse_dest (c ∷ s) = elim (strip_prefix (codes "scp://") (c ∷ s)) [
  | some rest ↦ parse_uri rest
  | none ↦ parse_plain (c ∷ s)
]
