-- ===== src/Sender/Walk/Tests.antt =====
-- The theorems about the walk and the file worker, on the small disk.
use escp.Base.{
  ℕ, ◌≡◌, ◌≤◌, refl, sym, ◌++◌, append_assoc, inl, inr, Bool-cases, Bool, true, false, List, [],
  ◌∷◌, Text, text_eq, arith,
}
use escp.Sender.Batch.{Stat}
use escp.Sender.Walk.{entry_items}
use escp.Sender.Walk.Found.{YieldsAll}
use escp.Sender.Walk.Worth.{tally}
use escp.Sender.Walk.Outlook.{told}
use escp.Sender.Walk.Exact.{Steps-YieldsAll}
use escp.Sender.Walk.Numbers.{IsNumbered, Steps-IsNumbered}
use escp.Sender.Walk.Bounded.{of_items, Ranks, useful, useful-start}
use escp.Base.Totals.{total}
use escp.Str.Paths.{join, last_is_slash}
use escp.Str.{starts_with}
use escp.Sender.Walk.Example.{
  dir_path, tree, disk, the_dir, at_end, disk-Shows, run, at_end-Finished,
}

Steps-YieldsAll_example :
    (fs : List (Text × Stat)) × (YieldsAll disk tree true (the_dir ∷ []) fs
      × ((P : Text × Stat → Bool) → tally P (told at_end.sent) ≡ tally P fs))
Steps-YieldsAll_example =
    Steps-YieldsAll disk tree true disk-Shows (the_dir ∷ []) at_end run at_end-Finished

Steps-IsNumbered_example : IsNumbered at_end
Steps-IsNumbered_example = Steps-IsNumbered disk true (the_dir ∷ []) at_end run

EndsInF : Text → Type 0
EndsInF x = (u : Text) × (x ≡ u ++ b'f' ∷ [])

EndsInF-join : (a b : Text) → EndsInF b → EndsInF (join a b)
unfolding join EndsInF
EndsInF-join [] b e = e
EndsInF-join (c ∷ a) b (u, q) = elim (Bool-cases (starts_with b'/' b)) [
  | inl p ↦ rw p (u, q)
  | inr p ↦ elim (Bool-cases (last_is_slash (c ∷ a))) [
    | inl l ↦ rw (p, l) ((c ∷ a) ++ u, rw q (sym (append_assoc (c ∷ a) u (b'f' ∷ []))))
    | inr l ↦
        rw (p, l) ((c ∷ a) ++ b'/' ∷ u, rw q (sym (append_assoc (c ∷ a) (b'/' ∷ u) (b'f' ∷ []))))
  ]
]

EndsInF-ne-dir_path : (x : Text) → EndsInF x → text_eq x dir_path ≡ false
unfolding EndsInF text_eq
EndsInF-ne-dir_path x ([], q) = rw q refl
EndsInF-ne-dir_path x (c ∷ [], q) = rw q (ground arith)
EndsInF-ne-dir_path x (c ∷ e ∷ [], q) = rw q (ground arith)
EndsInF-ne-dir_path x (c ∷ e ∷ g ∷ u, q) = rw q (ground arith)

abbrev weight_by : Bool → ℕ
weight_by true = 8
weight_by false = 3

abbrev weight : Text → Text → ℕ
weight p f = weight_by (text_eq (join p f) dir_path)

tree-Ranks : Ranks tree weight
unfolding Ranks of_items total entry_items EndsInF
tree-Ranks p f = elim (Bool-cases (text_eq (join p f) dir_path)) [
  | inl q ↦
      rw
        (
          q,
          EndsInF-ne-dir_path (join p (join f (b'f' ∷ [])))
              (EndsInF-join p (join f (b'f' ∷ [])) (EndsInF-join f (b'f' ∷ []) ([], refl))),
        )
        (omega arith)
  | inr q ↦ rw q (omega arith)
]

useful-start_example : useful run ≤ of_items weight (the_dir ∷ [])
useful-start_example =
    useful-start disk tree true weight disk-Shows tree-Ranks (the_dir ∷ []) at_end run
