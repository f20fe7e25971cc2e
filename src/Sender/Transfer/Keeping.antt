-- ===== src/Sender/Transfer/Keeping.antt =====
-- Properties that every turn of a loop keeps.
use escp.Base.{inl, inr, true, false, ◌||◌, List, [], ◌∷◌, Bool-cases}
use escp.Sender.Rounds.{Round, Turn, goes, leaves, stops, listen, after}
use escp.Sender.Transfer.{Tick, shown, over, progress}

module _ (P : Round → Type 0) where
  abbrev pub OnTurn : Turn → Type 0
  OnTurn (goes r) = P r
  OnTurn (leaves r) = P r
  OnTurn (stops c) = Unit

  -- The property holds after the function if it held before.
  abbrev pub Keeps : (Round → Turn) → Type 0
  Keeps next = (r : Round) → P r → OnTurn (next r)

  pub after-Keeps :
      (again : Round → Turn) (t : Turn) → Keeps again → OnTurn t → OnTurn (after again t)
  unfolding after
  after-Keeps again (goes r) k h = k r h
  after-Keeps again (leaves r) k h = h
  after-Keeps again (stops c) k h = tt

  shown-Keeps : (tick : Tick) → Keeps (shown tick)
  unfolding shown
  shown-Keeps tick r h =
      elim (Bool-cases (over r.batch.files_total r.batch.bytes_total tick.bytes_now r.files_ok)) [
        | inl q ↦ rw q (elim (Bool-cases (tick.late || true)) [ inl p ↦ rw p h | inr p ↦ rw p h ])
        | inr q ↦ rw q (elim (Bool-cases (tick.late || false)) [ inl p ↦ rw p h | inr p ↦ rw p h ])
      ]

  pub progress-Keeps :
      ((next : Round → Turn) → Keeps next → Keeps (listen next))
      → (ticks : List Tick) → Keeps (progress ticks)
  unfolding progress
  progress-Keeps listens [] r h = h
  progress-Keeps listens (tick ∷ ticks) r h =
      after-Keeps (progress ticks) (listen (shown tick) r) (progress-Keeps listens ticks)
        (listens (shown tick) (shown-Keeps tick) r h)

pub OnTurn-both :
    (P Q : Round → Type 0) (t : Turn) → OnTurn P t → OnTurn Q t → OnTurn (λ r. P r × Q r) t
OnTurn-both P Q (goes r) p q = (p, q)
OnTurn-both P Q (leaves r) p q = (p, q)
OnTurn-both P Q (stops c) p q = tt
