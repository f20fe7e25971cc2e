-- ===== src/Sender/Walk/Entries.antt =====
-- The items that a directory worker makes of a directory's entries are those that count.
use escp.Base.{
  ℕ, ◌≡◌, sym, ◌∙◌, inl, inr, Bool, true, not, ◌&&◌, ◌||◌, List, [], ◌∷◌, ◌++◌, Text, text_eq_iff,
  ◌==◌, arith, Bool-cases, true-ne-false,
}
use escp.Sender.Files.{Item, dt_dir, dt_reg}
use escp.Sender.Walk.{is_dots, entry_items}
use escp.Sender.Walk.Found.{Follows, Children, no_entries, followed, skipped}

-- The items of all the entries.
abbrev pub children : Text → Text → List (Text × ℕ) → List Item
children prefix filename [] = []
children prefix filename (e ∷ es) = entry_items prefix filename e ++ children prefix filename es

follows : Text → ℕ → Bool
unfolding is_dots
follows name d_type = not (is_dots name) && (d_type == dt_reg || d_type == dt_dir)

follows-Follows : (name : Text) (d_type : ℕ) → follows name d_type ≡ true → Follows name d_type
unfolding follows is_dots
follows-Follows name d_type q = record {
  not_self = λ e. ground (arith, q, (text_eq_iff name (b'.' ∷ [])).1 e);
  not_parent = λ e. ground (arith, q, (text_eq_iff name (b'.' ∷ b'.' ∷ [])).1 e);
  kind = ground (arith, q);
}

Follows-follows : (name : Text) (d_type : ℕ) → Follows name d_type → follows name d_type ≡ true
unfolding follows is_dots
Follows-follows name d_type f = ground (
  arith,
  text_eq_iff name (b'.' ∷ []),
  text_eq_iff name (b'.' ∷ b'.' ∷ []),
  f.not_self,
  f.not_parent,
  f.kind,
)

pub children-Children :
    (prefix filename : Text) (es : List (Text × ℕ))
    → Children prefix filename es (children prefix filename es)
unfolding entry_items follows is_dots
children-Children prefix filename [] = no_entries
children-Children prefix filename ((name, d_type) ∷ es) = elim (Bool-cases (follows name d_type)) [
  | inl q ↦ rw q (
      followed name d_type es (children prefix filename es) (follows-Follows name d_type q)
        (children-Children prefix filename es))
  | inr q ↦ rw q (
      skipped name d_type es (children prefix filename es)
        (λ f. true-ne-false (sym (Follows-follows name d_type f) ∙ q))
        (children-Children prefix filename es))
]
