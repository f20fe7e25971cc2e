-- ===== src/Dest/Tests.antt =====
-- Inputs at which the theorems about `parse_dest` are applied.
use escp.Base.{true, ◌≡◌, refl, none, some, codes, arith}
use escp.Str.{strip_prefix, starts_with, split_once, rsplit_once}
use escp.Str.Decimal.{parse_uint}
use escp.Dest.{
  parse_dest, parse_uri, take_path, take_user, bracketed_host, colon_port, named_host, with_host,
  parse_u16,
}
use escp.Dest.Print.{print_uri, print_plain}
use escp.Dest.RoundTrip.{parsed, written, parse_dest-print_uri, parse_dest-print_plain}
use escp.Dest.Errors.{IsDecided, parse_dest-IsDecided}

-- scp://bob@x.org:22/d
uri_example :
    parse_dest (print_uri (some (codes "bob")) (codes "x.org") (some 22) (some (codes "d")))
    ≡ parsed (some (codes "bob")) (codes "x.org") (some 22) (some (codes "d"))
unfolding starts_with
uri_example =
    parse_dest-print_uri (some (codes "bob")) (some (codes "d")) (codes "x.org") (some 22)
      ((λ e. cc), refl, omega arith, omega arith, omega arith) (omega arith) (omega arith)

-- bob@[::1]:d
plain_example :
    parse_dest (print_plain (some (codes "bob")) (written true (codes "::1")) (codes "d"))
    ≡ parsed (some (codes "bob")) (codes "::1") none (some (codes "d"))
unfolding strip_prefix
plain_example =
    parse_dest-print_plain (some (codes "bob")) true (codes "::1") (codes "d") (λ e. cc) (λ e. cc)
      (omega arith) (omega arith) refl

IsDecided-example : IsDecided (parse_dest (codes "scp://[::1"))
IsDecided-example = parse_dest-IsDecided (codes "scp://[::1")

malformed_port : (parse_dest (codes "scp://[::1]x")).error ≡ some (codes "Parsing port")
unfolding parse_dest strip_prefix parse_uri starts_with take_path split_once take_user rsplit_once
    bracketed_host colon_port
malformed_port = refl

-- A port that is no u16 is dropped silently in the form without brackets.
port_dropped : (parse_dest (codes "scp://h:99999/d")).port ≡ none
unfolding parse_dest strip_prefix parse_uri starts_with take_path split_once take_user rsplit_once
    named_host with_host parse_u16 parse_uint
port_dropped = refl
