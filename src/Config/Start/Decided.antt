-- ===== src/Config/Start/Decided.antt =====
-- What holds when the sender or the receiver runs.
use escp.Base.{
  ℕ, ◌≡◌, ◌≢◌, ◌≤◌, refl, ap, sym, ◌∙◌, ◌⊎◌, inl, inr, Bool, true, false, not, ◌&&◌, if◌then◌else◌,
  List, [], ◌∷◌, ◌++◌, Option, none, some, Text, length, ltb, arith, Bool-cases,
}
use escp.Base.{none-ne-some, some_inj, true-ne-false}
use escp.Base.Int.{ℤ, negsuc, eqb_ℤ}
use escp.Human.{to_lowercase}
use escp.Config.Flags.{Flags}
use escp.Config.Machine.{Doc, Raw, Conf, Machine, load_yaml, configure}
use escp.Config.Settings.{Settings, settings, engine, before_first, after_last, with_engines, fill}
use escp.Config.Settings.Engines.{Sound, settings-Sound}
use escp.Config.Start.{
  last_or_empty, but_last, split_destination, Started, panics, unknown_engine, prints_license,
  prints_help, runs_receiver, runs_sender, do_escp, is_empty, finish, with_machine, with_config,
  start_escp,
}

-- The last argument is the destination, and those before it the sources.
pub data Positional (given : Flags) (f : Flags) : Type 0 where
  none_given : given.source ≡ [] → f.source ≡ [] → f.destination ≡ [] → Positional given f
  some_given : f.source ++ f.destination ∷ [] ≡ given.source → Positional given f

-- There is enough to do.
abbrev pub Enough : Flags → Type 0
Enough f = (2 ≤ length f.source) ⊎ ((f.server ≡ true) ⊎ (f.file_list ≢ []))

pub record Runs (given : Flags) (a : Settings) (f : Flags) : Type 0 where
  pub positional : Positional given f
  pub enough : Enough given
  pub no_license : given.license ≡ false
  pub sound : Sound a

-- The side that runs is the one that `--server` names.
abbrev pub IsDecided : Flags → Started → Type 0
IsDecided given panics = Unit
IsDecided given unknown_engine = Unit
IsDecided given prints_license = given.license ≡ true
IsDecided given prints_help =
    (length given.source ≤ 1) × ((given.server ≡ false) × (given.file_list ≡ []))
IsDecided given (runs_receiver m a f) = (given.server ≡ true) × Runs given a f
IsDecided given (runs_sender m a f) = (given.server ≡ false) × Runs given a f

but_last-last_or_empty :
    (s : Text) (ss : List Text) → but_last (s ∷ ss) ++ last_or_empty (s ∷ ss) ∷ [] ≡ s ∷ ss
unfolding but_last last_or_empty
but_last-last_or_empty s [] = refl
but_last-last_or_empty s (t ∷ ss) = ap (λ l. s ∷ l) (but_last-last_or_empty t ss)

split_destination-Positional : (f : Flags) → Positional f (split_destination f)
unfolding split_destination but_last last_or_empty
split_destination-Positional f = by_source f.source refl
  where
    by_source : (ss : List Text) → f.source ≡ ss → Positional f (split_destination f)
    by_source [] q = none_given q (ap but_last q) (ap last_or_empty q)
    by_source (s ∷ ss) q =
        some_given
          (ap (λ l. but_last l ++ last_or_empty l ∷ []) q ∙ but_last-last_or_empty s ss ∙ sym q)

with_engines-do_server :
    (a s : Settings) (f : Flags) (tx rx : ℤ)
    → with_engines a f tx rx ≡ some s
    → s.do_server ≡ f.server
unfolding with_engines fill
with_engines-do_server a s f tx rx q = elim (Bool-cases (eqb_ℤ tx (negsuc 0))) [
  | inl e ↦ absurd (none-ne-some (rw e at q))
  | inr e ↦ elim (Bool-cases (eqb_ℤ rx (negsuc 0))) [
    | inl e' ↦ absurd (none-ne-some (rw (e, e') at q))
    | inr e' ↦ ap (λ x. x.do_server) (sym (some_inj (rw (e, e') at q)))
  ]
]

settings-do_server : (a s : Settings) (f : Flags) → settings a f ≡ some s → s.do_server ≡ f.server
unfolding settings
settings-do_server a s f q =
    with_engines-do_server a s f (engine (before_first (to_lowercase f.io_engine)))
      (engine (after_last (to_lowercase f.io_engine))) q

either :
    (P : Started → Type 0) (b : Bool) (x y : Started)
    → (b ≡ true → P x)
    → (b ≡ false → P y)
    → P (if b then x else y)
either P true x y h k = h refl
either P false x y h k = k refl

do_escp-IsDecided :
    (given f : Flags) (m : Machine) (a : Settings)
    → a.do_server ≡ given.server
    → Runs given a f
    → IsDecided given (do_escp m a f)
unfolding do_escp
do_escp-IsDecided given f m a q r =
    either (IsDecided given) a.do_server (runs_receiver m a f) (runs_sender m a f)
      (λ e. (sym q ∙ e, r)) (λ e. (sym q ∙ e, r))

and_parts : (b c : Bool) → (b && c) ≡ true → (b ≡ true) × (c ≡ true)
and_parts true true q = (refl, refl)
and_parts true false q = absurd (true-ne-false (sym q))
and_parts false c q = absurd (true-ne-false (sym q))

when_not : (b : Bool) → not b ≡ true → b ≡ false
when_not true q = absurd (true-ne-false (sym q))
when_not false q = refl

is_empty-nil : (s : Text) → is_empty s ≡ true → s ≡ []
unfolding is_empty
is_empty-nil [] q = refl
is_empty-nil (c ∷ s) q = absurd (true-ne-false (sym q))

-- Why the help is not printed.
Enough-given :
    (f : Flags)
    → (ltb (length f.source) 2 && not f.server && is_empty f.file_list) ≡ false
    → Enough f
unfolding is_empty
Enough-given f q = elim (Bool-cases (ltb (length f.source) 2)) [
  | inr e ↦ inl (ground (arith, e))
  | inl e ↦ elim (Bool-cases f.server) [
    | inl e' ↦ inr (inl e')
    | inr e' ↦ inr (inr (λ z. true-ne-false (rw (e, e', z) at q)))
  ]
]

few_given :
    (f : Flags)
    → (ltb (length f.source) 2 && not f.server && is_empty f.file_list) ≡ true
    → (length f.source ≤ 1) × ((f.server ≡ false) × (f.file_list ≡ []))
few_given f q =
    let (x, y) = and_parts (ltb (length f.source) 2 && not f.server) (is_empty f.file_list) q in
    let (few, client) = and_parts (ltb (length f.source) 2) (not f.server) x in
    (ground (arith, few), (when_not f.server client, is_empty-nil f.file_list y))

finish-IsDecided :
    (f : Flags) (m : Machine) (o : Option Settings)
    → ((s : Settings) → o ≡ some s → Sound s × (s.do_server ≡ f.server))
    → IsDecided f (finish (length f.source) m (split_destination f) o)
unfolding finish split_destination
finish-IsDecided f m none h = tt
finish-IsDecided f m (some a) h =
    either (IsDecided f) f.license prints_license _ (λ e. e)
      (λ e.
        either (IsDecided f) (ltb (length f.source) 2 && not f.server && is_empty f.file_list)
          prints_help _ (few_given f)
          (λ w. do_escp-IsDecided f (split_destination f) m a ((h a refl).1) (record {
            positional = split_destination-Positional f;
            enough = Enough-given f w;
            no_license = e;
            sound = (h a refl).0;
          })))

with_machine-IsDecided :
    (a : Settings) (f : Flags) (o : Option Machine) → IsDecided f (with_machine a f o)
unfolding with_machine split_destination
with_machine-IsDecided a f none = tt
with_machine-IsDecided a f (some m) =
    finish-IsDecided f m (settings a (split_destination f)) (λ s q.
      (settings-Sound a (split_destination f) s q, settings-do_server a s (split_destination f) q))

-- When a side runs, it is the one that `--server` names, the last argument is its destination and the
-- others its sources, there are two arguments or a file list or it is the receiver, and its block size
-- and engines are sound; the help is printed only when there is not enough, and the licence only on
-- demand.
pub start_escp-IsDecided :
    (load : Text → Option (List Doc)) (decode : Text → Option (List ℕ)) (raw : Raw) (m : Machine)
    (a : Settings) (f : Flags)
    → IsDecided f (start_escp load decode raw m a f)
unfolding start_escp with_config
start_escp-IsDecided load decode raw m a f = by_config (load_yaml load raw)
  where
    by_config : (o : Option Conf) → IsDecided f (with_config decode m a f o)
    by_config none = tt
    by_config (some conf) = with_machine-IsDecided a f (configure decode conf m)
