-- ===== src/Logging/Start.antt =====
-- `initialize_logging`: where the log goes.
use escp.Base.{
  ℕ, ◌-◌, ◌^◌, ◌≡◌, ◌≢◌, ◌↔◌, refl, sym, ap, ◌∙◌, true-ne-false, Bool, true, false, ◌&&◌, ◌||◌,
  ◌==◌, Lacks, All-append, [], ◌∷◌, ◌++◌, Option, none, some, Text, codes, ltb, leb, if◌then◌else◌,
  arith, Bool-cases, inl, inr,
}
use escp.Str.{strip_prefix, split_at, split_at-append, strip_prefix_sound, at_boundary}
use escp.Str.Decimal.{parse_uint, scan, scan_some}

-- What the system answers: is there a syslog to connect to; the descriptor of a log file, unless it
-- cannot be opened.
pub record System : Type 0 where
  pub has_syslog : Bool
  pub open_log : Text → Option ℕ

pub data Logger : Type 0 where
  silent : Logger
  syslog : ℕ → Text → Logger
  to_file : ℕ → Logger

-- The logger that is set, and whether the thread for libdtn's messages runs.
pub record Started : Type 0 where
  pub logger : Logger
  pub has_thread : Bool

nothing_set : Started
nothing_set = record { logger = silent; has_thread = false }

ident : Bool → Text
ident true = codes ".server"
ident false = codes ".client"

-- `^LOCAL[0-7]$`
one_octal : Option Text → Bool
one_octal none = false
one_octal (some []) = false
one_octal (some (d ∷ [])) = leb b'0' d && leb d b'7'
one_octal (some (d ∷ e ∷ s)) = false

is_local : Text → Bool
unfolding one_octal
is_local base = one_octal (strip_prefix (codes "LOCAL") base)

-- `number.parse::<i64>().unwrap()` of what is behind the fifth byte; `none` is a panic.
facility : Option (Text × Text) → Option ℕ
facility none = none
facility (some (l, number)) = parse_uint (2 ^ 63 - 1) number

to_syslog : System → Bool → ℕ → Started
unfolding nothing_set ident
to_syslog sys do_server n =
    if sys.has_syslog
    then record { logger = syslog n (codes "escp" ++ ident do_server); has_thread = true }
    else nothing_set

-- `ar[slog as usize]`, of eight facilities.
by_facility : System → Bool → Option ℕ → Option Started
unfolding to_syslog
by_facility sys do_server none = none
by_facility sys do_server (some n) = if ltb n 8 then some (to_syslog sys do_server n) else none

with_file : Option ℕ → Started
unfolding nothing_set
with_file none = nothing_set
with_file (some fd) = record { logger = to_file fd; has_thread = true }

-- `CString::new` refuses a text with a NUL.
has_nul : Text → Bool
has_nul [] = false
has_nul (c ∷ s) = c == 0 || has_nul s

-- The log file; `unwrap` panics on a name with a NUL.
to_named_file : System → Text → Option Started
unfolding has_nul with_file
to_named_file sys name = if has_nul name then none else some (with_file (sys.open_log name))

-- `none` is a panic. `log::set_boxed_logger` fails only where a logger was set before, and this is
-- the only place that sets one.
unfoldable pub initialize_logging : System → Bool → Text → Option Started
unfolding nothing_set is_local facility by_facility to_named_file ident
initialize_logging sys do_server [] = some nothing_set
initialize_logging sys do_server (c ∷ base) =
    if is_local (c ∷ base)
    then by_facility sys do_server (facility (split_at 5 (c ∷ base)))
    else to_named_file sys ((c ∷ base) ++ ident do_server)

-- A logger is set exactly if the thread runs.
abbrev pub Goes : Started → Type 0
Goes s = (s.logger ≢ silent) ↔ (s.has_thread ≡ true)

-- What comes of a path: it has no NUL, and a logger is set exactly if the thread runs; or it has one,
-- and the program panics.
abbrev pub Starts : Text → Option Started → Type 0
Starts base (some s) = Lacks 0 base × Goes s
Starts base none = Lacks 0 base → ⊥

nothing_set-Goes : Goes nothing_set
unfolding nothing_set
nothing_set-Goes = ground arith

to_syslog-Goes : (sys : System) (b : Bool) (n : ℕ) → Goes (to_syslog sys b n)
unfolding to_syslog nothing_set
to_syslog-Goes sys b n = elim (Bool-cases sys.has_syslog) [
  | inl q ↦ rw q ((λ h. refl), (λ h. λ e. cc))
  | inr q ↦ rw q ((λ h. absurd (h refl)), (λ h. cc))
]

with_file-Goes : (o : Option ℕ) → Goes (with_file o)
unfolding with_file nothing_set
with_file-Goes none = ((λ h. absurd (h refl)), (λ h. cc))
with_file-Goes (some fd) = ((λ h. refl), (λ h. λ e. cc))

-- One octal digit is read as itself.
parse_octal :
    (d : ℕ) → (leb b'0' d && leb d b'7') ≡ true → parse_uint (2 ^ 63 - 1) (d ∷ []) ≡ some (d - b'0')
unfolding parse_uint scan_some scan
parse_octal d h = ground (arith, h)

octal :
    (o : Option Text)
    → one_octal o ≡ true
    → (d : ℕ) × ((o ≡ some (d ∷ [])) × ((leb b'0' d && leb d b'7') ≡ true))
unfolding one_octal
octal none q = absurd (true-ne-false (sym q))
octal (some []) q = absurd (true-ne-false (sym q))
octal (some (d ∷ [])) q = (d, (refl, q))
octal (some (d ∷ e ∷ s)) q = absurd (true-ne-false (sym q))

-- The facility of a name of syslog.
facility-local :
    (d : ℕ)
    → (leb b'0' d && leb d b'7') ≡ true
    → facility (split_at 5 (codes "LOCAL" ++ d ∷ [])) ≡ some (d - b'0')
unfolding facility
facility-local d h = ap facility (split_at-append (codes "LOCAL") (d ∷ []) first) ∙ parse_octal d h
  where
    first : at_boundary (d ∷ []) ≡ true
    first = ground (arith, h)

local-Starts :
    (sys : System) (b : Bool) (base : Text)
    → is_local base ≡ true
    → Starts base (by_facility sys b (facility (split_at 5 base)))
unfolding is_local by_facility
local-Starts sys b base q =
    let (d, (e, h)) = octal (strip_prefix (codes "LOCAL") base) q in
    rw (strip_prefix_sound (codes "LOCAL") base (d ∷ []) e, facility-local d h, in_range d h)
      (lacks d h, to_syslog-Goes sys b (d - b'0'))
  where
    in_range : (d : ℕ) → (leb b'0' d && leb d b'7') ≡ true → ltb (d - b'0') 8 ≡ true
    in_range d h = ground (arith, h)

    not_zero : (d : ℕ) → (leb b'0' d && leb d b'7') ≡ true → d ≢ 0
    not_zero d h = ground (arith, h)

    lacks : (d : ℕ) → (leb b'0' d && leb d b'7') ≡ true → Lacks 0 (codes "LOCAL" ++ d ∷ [])
    lacks d h = (
      (λ e. omega (arith, e)),
      (
        (λ e. omega (arith, e)),
        (
          (λ e. omega (arith, e)),
          ((λ e. omega (arith, e)), ((λ e. omega (arith, e)), (not_zero d h, tt))),
        ),
      ),
    )

has_nul-Lacks : (s : Text) → has_nul s ≡ false → Lacks 0 s
unfolding has_nul
has_nul-Lacks [] q = tt
has_nul-Lacks (c ∷ s) q = elim (Bool-cases (c == 0)) [
  | inl p ↦ absurd (true-ne-false (rw p at q))
  | inr p ↦ ((λ e. ground (arith, p, e)), has_nul-Lacks s (rw p at q))
]

Lacks-has_nul : (s : Text) → Lacks 0 s → has_nul s ≡ false
unfolding has_nul
Lacks-has_nul [] h = refl
Lacks-has_nul (c ∷ s) (n, h) = rw (Lacks-has_nul s h) (ground (arith, n))

file-Starts :
    (sys : System) (b : Bool) (base : Text) → Starts base (to_named_file sys (base ++ ident b))
unfolding to_named_file ident
file-Starts sys b base = elim (Bool-cases (has_nul (base ++ ident b))) [
  | inl q ↦ rw q (λ h.
      true-ne-false
        (sym q ∙ Lacks-has_nul _ (All-append (λ c. c ≢ 0) base (ident b) h (ident-Lacks b))))
  | inr q ↦
      rw q
        (front base (ident b) (has_nul-Lacks _ q), with_file-Goes (sys.open_log (base ++ ident b)))
]
  where
    front : (s t : Text) → Lacks 0 (s ++ t) → Lacks 0 s
    front [] t h = tt
    front (c ∷ s) t (n, h) = (n, front s t h)

    ident-Lacks : (b : Bool) → Lacks 0 (ident b)
    ident-Lacks b = has_nul-Lacks (ident b) (plain b)
      where
        plain : (b : Bool) → has_nul (ident b) ≡ false
        plain true = refl
        plain false = refl

-- Whatever the side and the answers of the system, `initialize_logging` panics exactly on a path with
-- a NUL; otherwise, also for a facility, which is read as a number and is one of the eight, a logger
-- is set exactly if the thread for libdtn's messages runs.
pub initialize_logging-Starts :
    (sys : System) (do_server : Bool) (base : Text)
    → Starts base (initialize_logging sys do_server base)
unfolding initialize_logging
initialize_logging-Starts sys b [] = (tt, nothing_set-Goes)
initialize_logging-Starts sys b (c ∷ base) = elim (Bool-cases (is_local (c ∷ base))) [
  | inl q ↦ rw q (local-Starts sys b (c ∷ base) q)
  | inr q ↦ rw q (file-Starts sys b (c ∷ base))
]
