-- ===== src/Sender/Rounds/Closing.antt =====
-- The channel of opened files, up to its end.
use escp.Base.{
  ℕ, suc, ◌≤◌, ◌<◌, ◌≡◌, refl, ◌⊎◌, inl, inr, Bool, true, false, List, [], ◌∷◌, length, ltb, arith,
  Bool-cases,
}
use escp.Sender.Batch.{Received, entry, timed_out, closed, Batcher, take_in, collect}

-- The channel is closed at its end, and not before.
abbrev pub EndsClosed : List Received → Type 0
EndsClosed [] = ⊥
EndsClosed (closed ∷ []) = Unit
EndsClosed (closed ∷ x ∷ rest) = ⊥
EndsClosed (entry e ∷ rest) = EndsClosed rest
EndsClosed (timed_out ∷ rest) = EndsClosed rest

-- The channel has not been closed, and has less than `n` to give; or it has been.
abbrev pub IsOpen : ℕ → List Received → Bool → Type 0
IsOpen n channel do_break = EndsClosed channel × ((do_break ≡ false) × (length channel < n))

abbrev pub IsShut : List Received → Bool → Type 0
IsShut channel do_break = (channel ≡ []) × (do_break ≡ true)

abbrev pub State : ℕ → List Received → Bool → Type 0
State n channel do_break = IsOpen n channel do_break ⊎ IsShut channel do_break

State-weaken : (n m : ℕ) (c : List Received) (b : Bool) → n ≤ m → State n c b → State m c b
State-weaken n m c b h (inl (e, (q, l))) = inl (e, (q, omega (arith, h, l)))
State-weaken n m c b h (inr x) = inr x

pub collect-State :
    (channel : List Received) (s : Batcher)
    → EndsClosed channel
    → s.do_break ≡ false
    → State (length channel) ((collect channel s).1) ((collect channel s).0.do_break)
unfolding collect take_in
collect-State [] s h q = absurd h
collect-State (closed ∷ []) s h q = inr (refl, refl)
collect-State (closed ∷ x ∷ rest) s h q = absurd h
collect-State (timed_out ∷ rest) s h q = inl (h, (q, omega arith))
collect-State (entry e ∷ rest) s h q =
    elim (Bool-cases (ltb (take_in e s).counter_max (take_in e s).counter)) [
      | inl p ↦ rw p (inl (h, (q, omega arith)))
      | inr p ↦ rw p (
          State-weaken (length rest) (suc (length rest)) _ _ (omega arith)
            (collect-State rest (take_in e s) h q))
    ]
