-- ===== src/Config/Settings/Engines.antt =====
-- The engines of the settings, and when there are settings at all.
use escp.Base.{
  ◌≤◌, ◌≡◌, refl, subst, inl, inr, ◌⊎◌, true, false, [], ◌∷◌, ◌++◌, none, some, Text, codes,
  text_eq, Lacks, arith, Bool-cases, some_inj, none-ne-some,
}
use escp.Base.Int.{ℤ, pos, negsuc, eqb_ℤ}
use escp.Str.{strip_prefix}
use escp.Human.{to_lowercase}
use escp.Config.{IsUsable, block_size-IsUsable}
use escp.Config.Flags.{Flags}
use escp.Config.Settings.{
  Settings, before_first, behind_last, or_whole, after_last, engine, fill, with_engines, settings,
}

-- The numbers of the engines.
abbrev pub IsEngine : ℤ → Type 0
IsEngine (pos n) = (1 ≤ n) × (n ≤ 4)
IsEngine (negsuc n) = ⊥

engine-IsEngine : (s : Text) → (engine s ≡ negsuc 0) ⊎ IsEngine (engine s)
unfolding engine
engine-IsEngine s = elim (Bool-cases (text_eq s (codes "posix"))) [
  | inl q ↦ rw q (inr (omega arith, omega arith))
  | inr q ↦ elim (Bool-cases (text_eq s (codes "uring"))) [
    | inl r ↦ rw (q, r) (inr (omega arith, omega arith))
    | inr r ↦ elim (Bool-cases (text_eq s (codes "dummy"))) [
      | inl t ↦ rw (q, r, t) (inr (omega arith, omega arith))
      | inr t ↦ elim (Bool-cases (text_eq s (codes "shmem"))) [
        | inl u ↦ rw (q, r, t, u) (inr (omega arith, omega arith))
        | inr u ↦ rw (q, r, t, u) (inl refl)
      ]
    ]
  ]
]

-- What holds of the arguments of a process that goes on.
pub record Sound (s : Settings) : Type 0 where
  pub tx : IsEngine s.io_engine_tx
  pub rx : IsEngine s.io_engine_rx
  pub usable : IsUsable s.block

fill-Sound :
    (a : Settings) (f : Flags) (tx rx : ℤ) → IsEngine tx → IsEngine rx → Sound (fill a f tx rx)
unfolding fill
fill-Sound a f tx rx h k = record { tx = h; rx = k; usable = block_size-IsUsable f.block_sz }

known_or_not : (z : ℤ) → (z ≡ negsuc 0) ⊎ IsEngine z → (eqb_ℤ z (negsuc 0) ≡ true) ⊎ IsEngine z
known_or_not z (inl e) = inl (rw e refl)
known_or_not z (inr h) = inr h

differs : (z : ℤ) → IsEngine z → eqb_ℤ z (negsuc 0) ≡ false
differs (pos n) h = ground arith
differs (negsuc n) h = absurd h

with_engines-Sound :
    (a : Settings) (f : Flags) (tx rx : ℤ) (s : Settings)
    → (eqb_ℤ tx (negsuc 0) ≡ true) ⊎ IsEngine tx
    → (eqb_ℤ rx (negsuc 0) ≡ true) ⊎ IsEngine rx
    → with_engines a f tx rx ≡ some s
    → Sound s
unfolding with_engines
with_engines-Sound a f tx rx s (inl e) k q = absurd (none-ne-some (rw e at q))
with_engines-Sound a f tx rx s (inr h) (inl e) q = absurd (none-ne-some (rw (differs tx h, e) at q))
with_engines-Sound a f tx rx s (inr h) (inr k) q =
    subst Sound (some_inj (rw (differs tx h, differs rx k) at q)) (fill-Sound a f tx rx h k)

-- If the process does not exit, then both engines are known ones and the block size is usable.
pub settings-Sound : (a : Settings) (f : Flags) (s : Settings) → settings a f ≡ some s → Sound s
unfolding settings
settings-Sound a f s q =
    with_engines-Sound a f (engine (before_first (to_lowercase f.io_engine)))
      (engine (after_last (to_lowercase f.io_engine))) s
      (known_or_not _ (engine-IsEngine (before_first (to_lowercase f.io_engine))))
      (known_or_not _ (engine-IsEngine (after_last (to_lowercase f.io_engine)))) q

-- The engines by name.
pub data Engine : Type 0 where
  posix : Engine
  uring : Engine
  dummy : Engine
  shmem : Engine

abbrev pub name_of : Engine → Text
name_of posix = codes "posix"
name_of uring = codes "uring"
name_of dummy = codes "dummy"
name_of shmem = codes "shmem"

abbrev pub number_of : Engine → ℤ
number_of posix = pos 1
number_of uring = pos 2
number_of dummy = pos 3
number_of shmem = pos 4

number-known : (e : Engine) → eqb_ℤ (number_of e) (negsuc 0) ≡ false
number-known posix = refl
number-known uring = refl
number-known dummy = refl
number-known shmem = refl

engine-name_of : (e : Engine) → engine (name_of e) ≡ number_of e
unfolding engine text_eq
engine-name_of posix = refl
engine-name_of uring = refl
engine-name_of dummy = refl
engine-name_of shmem = refl

name_of-Lacks : (e : Engine) → Lacks b':' (name_of e)
name_of-Lacks posix = ground arith
name_of-Lacks uring = ground arith
name_of-Lacks dummy = ground arith
name_of-Lacks shmem = ground arith

before_first-append : (s t : Text) → Lacks b':' s → before_first (s ++ b':' ∷ b':' ∷ t) ≡ s
unfolding before_first strip_prefix
before_first-append [] t h = refl
before_first-append (c ∷ s) t (x, h) = ground (arith, before_first-append s t h, x)

behind_last-Lacks : (s : Text) → Lacks b':' s → behind_last s ≡ none
unfolding behind_last strip_prefix
behind_last-Lacks [] h = refl
behind_last-Lacks (c ∷ s) (x, h) = rw (behind_last-Lacks s h) (ground (arith, x))

behind_last-one : (t : Text) → Lacks b':' t → behind_last (b':' ∷ t) ≡ none
unfolding behind_last strip_prefix
behind_last-one [] h = refl
behind_last-one (c ∷ t) h = rw (behind_last-Lacks (c ∷ t) h, behind_last) (ground (arith, h))

behind_last-append : (s t : Text) → Lacks b':' t → behind_last (s ++ b':' ∷ b':' ∷ t) ≡ some t
unfolding behind_last strip_prefix
behind_last-append [] [] h = refl
behind_last-append [] (c ∷ t) h = rw (behind_last-one (c ∷ t) h, behind_last) refl
behind_last-append (c ∷ s) t h = rw (behind_last-append s t h) refl

-- If the engines are given as two names with `::` between them, in any case, then the sender has the
-- first and the receiver the second one, and the process goes on.
pub settings-engines :
    (a : Settings) (f : Flags) (e g : Engine)
    → to_lowercase f.io_engine ≡ name_of e ++ b':' ∷ b':' ∷ name_of g
    → (s : Settings) × ((settings a f ≡ some s)
        × ((s.io_engine_tx ≡ number_of e) × (s.io_engine_rx ≡ number_of g)))
unfolding settings after_last or_whole with_engines fill
settings-engines a f e g q = (
  fill a f (number_of e) (number_of g),
  (
    rw
        (
          q,
          before_first-append (name_of e) (name_of g) (name_of-Lacks e),
          behind_last-append (name_of e) (name_of g) (name_of-Lacks g),
          engine-name_of e,
          engine-name_of g,
          number-known e,
          number-known g,
        )
        refl,
    (refl, refl),
  ),
)
