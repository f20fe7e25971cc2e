-- ===== src/Dest/RoundTrip.antt =====
-- What `parse_dest` reads back from a written destination.
use escp.Base.{
  append_cons-ne-nil, ℕ, ◌≤◌, ◌<◌, ◌≡◌, refl, sym, ap, ◌∙◌, ◌≢◌, ◌⊎◌, inl, inr, Bool, true, false,
  [], ◌∷◌, ◌++◌, Option, none, some, Text, codes, arith, All-append, Lacks, append-nil,
  append_assoc, if◌then◌else◌,
}
use escp.Str.{
  strip_prefix, starts_with, split_once-append, split_once-Lacks, rsplit_once-append,
  rsplit_once-Lacks, strip_prefix-append, strip_suffix-append,
}
use escp.Str.Decimal.{to_string, to_string-Lacks, parse_uint-to_string}
use escp.Dest.Print.{at_user, at_port, at_path, print_uri, print_plain}
use escp.Dest.{
  DestParts, take_user, take_path, with_host, parse_u16, colon_port, named_host, bracketed_host,
  after_bracket, parse_uri, unbracket, plain_host, parse_plain, parse_dest,
}

abbrev pub LacksOpt : ℕ → Option Text → Type 0
LacksOpt b none = Unit
LacksOpt b (some s) = Lacks b s

abbrev pub Fits : Option ℕ → Type 0
Fits none = Unit
Fits (some n) = n ≤ 65535

pub take_user-at_user :
    (user : Option Text) (rest : Text)
    → Lacks b'@' rest
    → take_user (at_user user rest) ≡ (user, rest)
unfolding take_user
take_user-at_user none rest h = rw (rsplit_once-Lacks b'@' rest h, take_user)
take_user-at_user (some u) rest h = rw (rsplit_once-append b'@' u rest h, take_user)

take_path-at_path :
    (path : Option Text) (host : Text)
    → Lacks b'/' host
    → take_path (host ++ at_path path) ≡ (path, host)
unfolding take_path
take_path-at_path none host h =
    ap take_path (append-nil host) ∙ rw (split_once-Lacks b'/' host h, take_path)
take_path-at_path (some p) host h = rw (split_once-append b'/' host p h, take_path)

Lacks-at_port :
    (b : ℕ) (port : Option ℕ) → b ≢ b':' → (b < b'0') ⊎ (b'9' < b) → Lacks b (at_port port)
Lacks-at_port b none h k = tt
Lacks-at_port b (some n) h k = (λ e. h (sym e), to_string-Lacks b n k)

-- What the parser returns when all goes well.
abbrev pub parsed : Option Text → Text → Option ℕ → Option Text → DestParts
parsed user host port dest = record {
  user = user;
  host = some host;
  port = port;
  dest = dest;
  error = none;
}

with_host-parsed :
    (user dest : Option Text) (host : Text) (port : Option ℕ)
    → host ≢ []
    → with_host user host port dest ≡ parsed user host port dest
unfolding with_host
with_host-parsed user dest [] port h = absurd (h refl)
with_host-parsed user dest (c ∷ host) port h = refl

named_host_lem :
    (user dest : Option Text) (host : Text) (port : Option ℕ)
    → host ≢ []
    → Lacks b':' host
    → Fits port
    → named_host user dest (host ++ at_port port) ≡ parsed user host port dest
unfolding named_host parse_u16
named_host_lem user dest host none h k f =
    ap (named_host user dest) (append-nil host)
    ∙ rw (rsplit_once-Lacks b':' host k, named_host) (with_host-parsed user dest host none h)
named_host_lem user dest host (some n) h k f =
    rw
      (
        rsplit_once-append b':' host (to_string n) (to_string-Lacks b':' n (inr (omega arith))),
        parse_uint-to_string 65535 n f,
        named_host,
      )
      (with_host-parsed user dest host (some n) h)

-- A host that is not in brackets has no `[` at its head.
abbrev pub Named : Text → Type 0
Named host =
    (host ≢ [])
    × (starts_with b'[' host ≡ false)
    × Lacks b'@' host
    × Lacks b'/' host
    × Lacks b':' host

starts_with-append :
    (b : ℕ) (s t : Text) → s ≢ [] → starts_with b s ≡ false → starts_with b (s ++ t) ≡ false
unfolding starts_with
starts_with-append b [] t h k = absurd (h refl)
starts_with-append b (c ∷ s) t h k = k

-- A host with its port, as `take_user` and `take_path` see it.
Lacks-host_port :
    (b : ℕ) (host : Text) (port : Option ℕ)
    → b ≢ b':'
    → (b < b'0') ⊎ (b'9' < b)
    → Lacks b host
    → Lacks b (host ++ at_port port)
Lacks-host_port b host port h k l = All-append _ host (at_port port) l (Lacks-at_port b port h k)

Lacks-at_path : (path : Option Text) → LacksOpt b'@' path → Lacks b'@' (at_path path)
Lacks-at_path none h = tt
Lacks-at_path (some p) h = (λ e. absurd (omega arith), h)

-- The three cuts of the URI form, before the host is read.
parse_uri-cuts :
    (user path : Option Text) (authority : Text)
    → Lacks b'@' authority
    → Lacks b'/' authority
    → LacksOpt b'@' path
    → parse_uri (at_user user (authority ++ at_path path)) ≡ (
        if starts_with b'[' authority
        then bracketed_host user path authority
        else named_host user path authority)
unfolding parse_uri
parse_uri-cuts user path authority ha hs hp = rw (
  take_user-at_user user (authority ++ at_path path)
      (All-append _ authority (at_path path) ha (Lacks-at_path path hp)),
  take_path-at_path path authority hs,
)

parse_dest-uri : (s : Text) → parse_dest (codes "scp://" ++ s) ≡ parse_uri s
unfolding parse_dest
parse_dest-uri s = rw (strip_prefix-append (codes "scp://") s, parse_dest)

-- A URI with a named host is read back whole, with or without user, port and path. The host is not
-- empty, has no `[` at its head and no `@`, `/` or `:`; the path has no `@`; the port is a u16.
pub parse_dest-print_uri :
    (user path : Option Text) (host : Text) (port : Option ℕ)
    → Named host
    → LacksOpt b'@' path
    → Fits port
    → parse_dest (print_uri user host port path) ≡ parsed user host port path
parse_dest-print_uri user path host port (ne, sb, la, ls, lc) hp f =
    parse_dest-uri (at_user user ((host ++ at_port port) ++ at_path path))
    ∙ parse_uri-cuts user path (host ++ at_port port)
        (Lacks-host_port b'@' host port (omega arith) (inr (omega arith)) la)
        (Lacks-host_port b'/' host port (omega arith) (inl (omega arith)) ls) hp
    ∙ rw (starts_with-append b'[' host (at_port port) ne sb)
        (named_host_lem user path host port ne lc f)

bracketed_host_lem :
    (user dest : Option Text) (host : Text) (port : Option ℕ)
    → host ≢ []
    → Fits port
    → bracketed_host user dest (b'[' ∷ (host ++ b']' ∷ at_port port)) ≡ parsed user host port dest
unfolding bracketed_host colon_port parse_u16 strip_prefix
bracketed_host_lem user dest host none h f =
    rw (rsplit_once-append b']' (b'[' ∷ host) [] tt, bracketed_host)
      (with_host-parsed user dest host none h)
bracketed_host_lem user dest host (some n) h f =
    rw
      (
        rsplit_once-append b']' (b'[' ∷ host) (at_port (some n))
            (Lacks-at_port b']' (some n) (omega arith) (inr (omega arith))),
        bracketed_host,
        after_bracket,
        parse_uint-to_string 65535 n f,
        colon_port,
      )
      (with_host-parsed user dest host (some n) h)

bracketed_regroup :
    (host : Text) (port : Option ℕ)
    → (b'[' ∷ (host ++ b']' ∷ [])) ++ at_port port ≡ b'[' ∷ (host ++ b']' ∷ at_port port)
bracketed_regroup host port = ap (◌∷◌ b'[') (append_assoc host (b']' ∷ []) (at_port port))

-- A URI with an address in brackets, such as `[::1]`, gives the address without the brackets. The
-- address is not empty and has no `@` and no `/`; the path has no `@`; the port is a u16.
parse_dest-print_uri_bracketed :
    (user path : Option Text) (host : Text) (port : Option ℕ)
    → host ≢ []
    → Lacks b'@' host
    → Lacks b'/' host
    → LacksOpt b'@' path
    → Fits port
    → parse_dest (print_uri user (b'[' ∷ (host ++ b']' ∷ [])) port path)
      ≡ parsed user host port path
unfolding starts_with
parse_dest-print_uri_bracketed user path host port ne la ls hp f =
    parse_dest-uri (at_user user (authority ++ at_path path))
    ∙ parse_uri-cuts user path authority
        (Lacks-host_port b'@' bracketed port (omega arith) (inr (omega arith))
          (in_brackets b'@' (omega arith) (omega arith) la))
        (Lacks-host_port b'/' bracketed port (omega arith) (inl (omega arith))
          (in_brackets b'/' (omega arith) (omega arith) ls))
        hp
    ∙ rw (bracketed_regroup host port) (bracketed_host_lem user path host port ne f)
  where
    bracketed : Text
    bracketed = b'[' ∷ (host ++ b']' ∷ [])

    authority : Text
    authority = bracketed ++ at_port port

    in_brackets : (b : ℕ) → b'[' ≢ b → b']' ≢ b → Lacks b host → Lacks b bracketed
    in_brackets b h k l = (h, All-append _ host (b']' ∷ []) l (k, tt))

unbracket_named : (host : Text) → starts_with b'[' host ≡ false → unbracket host ≡ host
unfolding unbracket starts_with strip_prefix
unbracket_named [] h = refl
unbracket_named (c ∷ host) h = ground arith

unbracket_brackets : (host : Text) → unbracket (b'[' ∷ (host ++ b']' ∷ [])) ≡ host
unfolding unbracket strip_prefix
unbracket_brackets host = rw (strip_suffix-append b']' host, unbracket)

-- The text does not begin like a URI.
abbrev pub NotUri : Text → Type 0
NotUri s = strip_prefix (codes "scp://") s ≡ none

plain_host_lem :
    (user : Option Text) (host path : Text)
    → host ≢ []
    → plain_host user host path ≡ parsed user (unbracket host) none (some path)
unfolding plain_host
plain_host_lem user [] path h = absurd (h refl)
plain_host_lem user (c ∷ host) path h = refl

parse_dest-plain : (s : Text) → s ≢ [] → NotUri s → parse_dest s ≡ parse_plain s
unfolding parse_dest
parse_dest-plain [] h n = absurd (h refl)
parse_dest-plain (c ∷ s) h n = rw (n, parse_dest)

-- A plain destination with any host: brackets round the whole host are taken off.
pub parse_dest-plain_host :
    (user : Option Text) (host path : Text)
    → host ≢ []
    → Lacks b'@' host
    → Lacks b':' path
    → NotUri (print_plain user host path)
    → parse_dest (print_plain user host path) ≡ parsed user (unbracket host) none (some path)
unfolding parse_plain
parse_dest-plain_host user host path ne la lp nu =
    parse_dest-plain (print_plain user host path) (append_cons-ne-nil (at_user user host) b':' path)
      nu
    ∙ rw
        (
          rsplit_once-append b':' (at_user user host) path lp,
          take_user-at_user user host la,
          parse_plain,
        )
        (plain_host_lem user host path ne)

-- A host as it is written: an address with colons stands in brackets.
abbrev pub written : Bool → Text → Text
written true host = b'[' ∷ (host ++ b']' ∷ [])
written false host = host

-- A plain destination `[user@]host:path` is read back whole, the host with or without brackets. The
-- host is not empty, has no `@` and, written without brackets, no `[` at its head; the path has no
-- `:`; and the text does not begin with `scp://`.
pub parse_dest-print_plain :
    (user : Option Text) (brackets : Bool) (host path : Text)
    → host ≢ []
    → (brackets ≡ false → starts_with b'[' host ≡ false)
    → Lacks b'@' host
    → Lacks b':' path
    → NotUri (print_plain user (written brackets host) path)
    → parse_dest (print_plain user (written brackets host) path) ≡ parsed user host none (some path)
parse_dest-print_plain user true host path ne sb la lp nu =
    parse_dest-plain_host user (written true host) path (λ e. cc)
      (
        (λ e. absurd (omega arith)),
        All-append _ host (b']' ∷ []) la ((λ e. absurd (omega arith)), tt),
      )
      lp nu
    ∙ ap (λ h. parsed user h none (some path)) (unbracket_brackets host)
parse_dest-print_plain user false host path ne sb la lp nu =
    parse_dest-plain_host user host path ne la lp nu
    ∙ ap (λ h. parsed user h none (some path)) (unbracket_named host (sb refl))
