-- ===== src/Sender/Files/Descriptors.antt =====
-- What becomes of the descriptor that a file worker gets for an item.
use escp.Base.{ℕ, ◌≡◌, ◌≢◌, List, [], ◌∷◌, Option, none, some}
use escp.Sender.Batch.{Stat}
use escp.Sender.Files.{
  Disk, s_iflnk, file_type, Verdict, ignored, enters, announces, ends_worker, waits, Handled,
}

-- The descriptor is handed on with the file, or closed exactly once.
pub Settled : ℕ → Verdict → List ℕ → Type 0
Settled fd (announces name st f) closes = (f ≡ fd) × (closes ≡ [])
Settled fd ignored closes = closes ≡ fd ∷ []
Settled fd (enters p f) closes = closes ≡ fd ∷ []
Settled fd ends_worker closes = ⊥
Settled fd waits closes = ⊥

-- What is known of the descriptor when a worker is done with an item.
abbrev pub Fate : Disk → Handled → Option ℕ → Type 0
Fate d h none = h.closes ≡ []
Fate d h (some fd) =
    (st : Stat)
    → d.fstat h.opener.calls fd ≡ some st
    → file_type st ≢ s_iflnk
    → Settled fd h.verdict h.closes
