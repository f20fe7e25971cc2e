-- ===== src/Dest/Errors.antt =====
-- When `parse_dest` fails, and which destinations it misreads.
use escp.Base.{
  ℕ, ◌≡◌, refl, sym, ap, ◌∙◌, ◌≢◌, ◌⊎◌, inl, inr, [], ◌∷◌, ◌++◌, Option, none, some, Text, codes,
  arith, All-append, Lacks, append-nil, append_assoc, Option-cases, subst, Bool, true, false,
  if◌then◌else◌, append_cons-ne-nil,
}
use escp.Str.{strip_prefix, starts_with, rsplit_once, rsplit_once-Lacks}
use escp.Dest.Print.{print_uri, print_plain}
use escp.Dest.RoundTrip.{parsed, Named, NotUri, parse_dest-print_uri, parse_dest-plain_host}
use escp.Dest.{
  DestParts, take_user, take_path, with_host, named_host, bracketed_host, after_bracket, colon_port,
  parse_uri, unbracket, plain_host, parse_plain, parse_dest,
}

-- Either a host and no error, or an error and no host.
abbrev pub IsDecided : DestParts → Type 0
IsDecided r =
    ((h : Text) × (r.host ≡ some h) × (r.error ≡ none))
    ⊎ ((e : Text) × (r.host ≡ none) × (r.error ≡ some e))

with_host-IsDecided :
    (user : Option Text) (host : Text) (port : Option ℕ) (dest : Option Text)
    → IsDecided (with_host user host port dest)
unfolding with_host
with_host-IsDecided user [] port dest = inr (_, refl, refl)
with_host-IsDecided user (c ∷ h) port dest = inl (c ∷ h, refl, refl)

after_bracket-IsDecided :
    (user dest : Option Text) (host p : Text) → IsDecided (after_bracket user dest host p)
unfolding after_bracket
after_bracket-IsDecided user dest host [] = with_host-IsDecided user host none dest
after_bracket-IsDecided user dest host (c ∷ p) = elim (Option-cases (colon_port (c ∷ p))) [
  | inl e ↦ rw (e, after_bracket) (inr (_, refl, refl))
  | inr (n, e) ↦ rw (e, after_bracket) (with_host-IsDecided user host (some n) dest)
]

bracketed_host-IsDecided :
    (user dest : Option Text) (s : Text) → IsDecided (bracketed_host user dest s)
unfolding bracketed_host
bracketed_host-IsDecided user dest s = elim (Option-cases (rsplit_once b']' s)) [
  | inl e ↦ rw (e, bracketed_host) (inr (_, refl, refl))
  | inr (hp, e) ↦ rw (e, bracketed_host) (after_bracket-IsDecided user dest _ hp.1)
]

named_host-IsDecided : (user dest : Option Text) (s : Text) → IsDecided (named_host user dest s)
unfolding named_host
named_host-IsDecided user dest s = elim (Option-cases (rsplit_once b':' s)) [
  | inl e ↦ rw (e, named_host) (with_host-IsDecided user s none dest)
  | inr (hp, e) ↦ rw (e, named_host) (with_host-IsDecided user hp.0 _ dest)
]

if-IsDecided :
    (b : Bool) (x y : DestParts) → IsDecided x → IsDecided y → IsDecided (if b then x else y)
if-IsDecided true x y hx hy = hx
if-IsDecided false x y hx hy = hy

parse_uri-IsDecided : (s : Text) → IsDecided (parse_uri s)
unfolding parse_uri
parse_uri-IsDecided s =
    if-IsDecided (starts_with b'[' (take_path (take_user s).1).1) _ _
      (bracketed_host-IsDecided _ _ _) (named_host-IsDecided _ _ _)

plain_host-IsDecided :
    (user : Option Text) (host path : Text) → IsDecided (plain_host user host path)
unfolding plain_host
plain_host-IsDecided user [] path = inr (_, refl, refl)
plain_host-IsDecided user (c ∷ h) path = inl (_, refl, refl)

parse_plain-IsDecided : (s : Text) → IsDecided (parse_plain s)
unfolding parse_plain
parse_plain-IsDecided s = elim (Option-cases (rsplit_once b':' s)) [
  | inl e ↦ rw (e, parse_plain) (inr (_, refl, refl))
  | inr (up, e) ↦ rw (e, parse_plain) (plain_host-IsDecided _ _ up.1)
]

-- Every text is either accepted, with a host and no error, or refused, with an error and no host. So
-- `escp_sender`, which tests the host, stops on exactly the texts with an error.
pub parse_dest-IsDecided : (s : Text) → IsDecided (parse_dest s)
unfolding parse_dest
parse_dest-IsDecided [] = inr (_, refl, refl)
parse_dest-IsDecided (c ∷ s) = elim (Option-cases (strip_prefix (codes "scp://") (c ∷ s))) [
  | inl e ↦ rw (e, parse_dest) (parse_plain-IsDecided (c ∷ s))
  | inr (r, e) ↦ rw (e, parse_dest) (parse_uri-IsDecided r)
]

-- A plain text without a colon is refused, whatever else it holds.
pub parse_dest_no_colon : (s : Text) → s ≢ [] → NotUri s → Lacks b':' s → (parse_dest s).host ≡ none
unfolding parse_dest parse_plain
parse_dest_no_colon [] h n l = refl
parse_dest_no_colon (c ∷ s) h n l =
    rw (n, parse_dest, rsplit_once-Lacks b':' (c ∷ s) l, parse_plain)

-- In a URI the user is cut off before the path, at the last `@`: when the path has an `@`, the host
-- and the path before it become the user, and what follows it the host.
pub at_in_path :
    (host p q : Text)
    → Named q
    → parse_dest (print_uri none host none (some (p ++ b'@' ∷ q)))
      ≡ parsed (some (host ++ b'/' ∷ p)) q none none
at_in_path host p q h =
    ap (λ s. parse_dest (codes "scp://" ++ s)) regroup
    ∙ parse_dest-print_uri (some (host ++ b'/' ∷ p)) none q none h tt tt
  where
    regroup :
        (host ++ []) ++ b'/' ∷ (p ++ b'@' ∷ q) ≡ (host ++ b'/' ∷ p) ++ b'@' ∷ ((q ++ []) ++ [])
    regroup = simp (append-nil, append_assoc)

-- In the plain form the path is cut off at the last `:`: when the path has a `:`, the host takes the
-- path before it.
pub colon_in_path :
    (host p q : Text)
    → Lacks b'@' host
    → Lacks b'@' p
    → Lacks b':' q
    → NotUri (print_plain none host (p ++ b':' ∷ q))
    → parse_dest (print_plain none host (p ++ b':' ∷ q))
      ≡ parsed none (unbracket (host ++ b':' ∷ p)) none (some q)
colon_in_path host p q lh lp lq nu =
    ap parse_dest (sym regroup)
    ∙ parse_dest-plain_host none (host ++ b':' ∷ p) q (append_cons-ne-nil host b':' p)
        (All-append _ host (b':' ∷ p) lh ((λ e. absurd (omega arith)), lp)) lq
        (subst NotUri (sym regroup) nu)
  where
    regroup : (host ++ b':' ∷ p) ++ b':' ∷ q ≡ host ++ b':' ∷ (p ++ b':' ∷ q)
    regroup = append_assoc host (b':' ∷ p) (b':' ∷ q)
