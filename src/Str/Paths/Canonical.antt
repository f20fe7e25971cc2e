-- ===== src/Str/Paths/Canonical.antt =====
-- A canonical path is its parent joined with its file name.
use escp.Base.{
  ℕ, ◌≡◌, ◌≢◌, refl, sym, ap, ◌∙◌, inl, inr, true, false, List, [], ◌∷◌, ◌++◌, append_assoc, some,
  Text, text_eq, text_eq_iff, Lacks, ◌==◌, arith, Bool-cases,
}
use escp.Str.Defs.{prepend, split_on, starts_with}
use escp.Str.Paths.{
  join, last_is_slash, is_part, grow, trim_parts, join_parts, but_last, last_of, behind_root,
  up_from, rooted_text, parent, normal, file_name,
}

-- The name of an entry of a directory.
pub record IsName (name : Text) : Type 0 where
  pub not_empty : name ≢ []
  pub no_slash : Lacks b'/' name
  pub not_self : name ≢ b'.' ∷ []
  pub not_parent : name ≢ b'.' ∷ b'.' ∷ []

-- A directory's canonical path, without the root's separator.
pub data IsCanonical : Text → Type 0 where
  root : IsCanonical []
  below : {dir name : Text} → IsCanonical dir → IsName name → IsCanonical (dir ++ b'/' ∷ name)

split_on-ne-nil : (b : ℕ) (s : Text) → split_on b s ≢ []
unfolding split_on prepend
split_on-ne-nil b [] = λ e. cc
split_on-ne-nil b (c ∷ s) = elim (Bool-cases (c == b)) [
  | inl q ↦ rw q (λ e. not_nil [] (split_on b s) e)
  | inr q ↦ rw q (prepend-ne-nil c (split_on b s))
]
  where
    not_nil : (p : Text) (ps : List Text) → p ∷ ps ≡ [] → ⊥
    not_nil p ps e = cc

    prepend-ne-nil : (c : ℕ) (ps : List Text) → prepend c ps ≢ []
    prepend-ne-nil c [] = λ e. cc
    prepend-ne-nil c (p ∷ ps) = λ e. cc

prepend-append : (c : ℕ) (ps qs : List Text) → ps ≢ [] → prepend c (ps ++ qs) ≡ prepend c ps ++ qs
unfolding prepend
prepend-append c [] qs h = absurd (h refl)
prepend-append c (p ∷ ps) qs h = refl

split_on-append : (b : ℕ) (s t : Text) → split_on b (s ++ b ∷ t) ≡ split_on b s ++ split_on b t
unfolding split_on
split_on-append b [] t = ground arith
split_on-append b (c ∷ s) t = elim (Bool-cases (c == b)) [
  | inl q ↦ rw (q, split_on-append b s t) refl
  | inr q ↦
      rw (q, split_on-append b s t)
        (prepend-append c (split_on b s) (split_on b t) (split_on-ne-nil b s))
]

split_on-Lacks : (b : ℕ) (s : Text) → Lacks b s → split_on b s ≡ s ∷ []
unfolding split_on prepend
split_on-Lacks b [] h = refl
split_on-Lacks b (c ∷ s) (x, h) = rw (split_on-Lacks b s h) (ground (arith, x))

join_parts-prepend : (c : ℕ) (ps : List Text) → join_parts (prepend c ps) ≡ c ∷ join_parts ps
unfolding join_parts prepend
join_parts-prepend c [] = refl
join_parts-prepend c (p ∷ []) = refl
join_parts-prepend c (p ∷ q ∷ ps) = refl

join_parts-nil : (ps : List Text) → ps ≢ [] → join_parts ([] ∷ ps) ≡ b'/' ∷ join_parts ps
unfolding join_parts
join_parts-nil [] h = absurd (h refl)
join_parts-nil (p ∷ ps) h = refl

join_parts-split_on : (s : Text) → join_parts (split_on b'/' s) ≡ s
unfolding split_on join_parts
join_parts-split_on [] = refl
join_parts-split_on (c ∷ s) = elim (Bool-cases (c == b'/')) [
  | inl q ↦
      rw (q, join_parts-nil (split_on b'/' s) (split_on-ne-nil b'/' s), join_parts-split_on s)
        (ground (arith, q))
  | inr q ↦ rw (q, join_parts-prepend c (split_on b'/' s), join_parts-split_on s) refl
]

trim_parts-append :
    (ps : List Text) (name : Text)
    → is_part name ≡ true
    → trim_parts (ps ++ name ∷ []) ≡ ps ++ name ∷ []
unfolding trim_parts grow
trim_parts-append [] name h = rw h refl
trim_parts-append (p ∷ ps) name h = rw (trim_parts-append ps name h) (keeps p ps)
  where
    keeps : (p : Text) (ps : List Text) → grow p (ps ++ name ∷ []) ≡ p ∷ (ps ++ name ∷ [])
    keeps p [] = refl
    keeps p (q ∷ ps) = refl

but_last-append : (ps : List Text) (name : Text) → but_last (ps ++ name ∷ []) ≡ ps
unfolding but_last
but_last-append [] name = refl
but_last-append (p ∷ []) name = refl
but_last-append (p ∷ q ∷ ps) name = ap (λ x. p ∷ x) (but_last-append (q ∷ ps) name)

last_of-append : (ps : List Text) (name : Text) → last_of (ps ++ name ∷ []) ≡ some name
unfolding last_of
last_of-append [] name = refl
last_of-append (p ∷ []) name = refl
last_of-append (p ∷ q ∷ ps) name = last_of-append (q ∷ ps) name

text_ne : (s t : Text) → s ≢ t → text_eq s t ≡ false
text_ne s t h = elim (Bool-cases (text_eq s t)) [
  | inl q ↦ absurd (h ((text_eq_iff s t).0 q))
  | inr q ↦ q
]

is_part-IsName : (name : Text) → IsName name → is_part name ≡ true
unfolding is_part
is_part-IsName name n = rw (text_ne name [] n.not_empty, text_ne name (b'.' ∷ []) n.not_self) refl

normal-IsName : (name : Text) → IsName name → normal (some name) ≡ some name
unfolding normal
normal-IsName name n =
    rw (text_ne name (b'.' ∷ []) n.not_self, text_ne name (b'.' ∷ b'.' ∷ []) n.not_parent) refl

-- The components of a canonical directory behind the root.
record Pieces (dir : Text) : Type 0 where
  pub pieces : List Text
  pub split : split_on b'/' dir ≡ [] ∷ pieces
  pub trimmed : trim_parts pieces ≡ pieces

split_on-name :
    (dir name : Text) (ps : List Text)
    → split_on b'/' dir ≡ [] ∷ ps
    → IsName name
    → split_on b'/' (dir ++ b'/' ∷ name) ≡ [] ∷ (ps ++ name ∷ [])
split_on-name dir name ps q n =
    split_on-append b'/' dir name ∙ rw (q, split_on-Lacks b'/' name n.no_slash) refl

pieces_of : (dir : Text) → IsCanonical dir → Pieces dir
unfolding split_on trim_parts
pieces_of _ root = record { pieces = []; split = refl; trimmed = refl }
pieces_of _ (below {dir} {name} c n) =
    let p = pieces_of dir c in
    record {
      pieces = p.pieces ++ name ∷ [];
      split = split_on-name dir name p.pieces p.split n;
      trimmed = trim_parts-append p.pieces name (is_part-IsName name n);
    }

-- A canonical path begins at the root.
starts_with-canonical :
    (dir name : Text) → IsCanonical dir → starts_with b'/' (dir ++ b'/' ∷ name) ≡ true
unfolding starts_with
starts_with-canonical _ name root = refl
starts_with-canonical _ name (below {dir} {name = n} c x) =
    ap (starts_with b'/') (append_assoc dir (b'/' ∷ n) (b'/' ∷ name))
    ∙ starts_with-canonical dir (n ++ b'/' ∷ name) c

trim_parts-canonical :
    (dir name : Text) (c : IsCanonical dir)
    → IsName name
    → trim_parts (behind_root (split_on b'/' (dir ++ b'/' ∷ name)))
      ≡ (pieces_of dir c).pieces ++ name ∷ []
unfolding behind_root
trim_parts-canonical dir name c n =
    let p = pieces_of dir c in
    ap (λ ps. trim_parts (behind_root ps)) (split_on-name dir name p.pieces p.split n)
    ∙ trim_parts-append p.pieces name (is_part-IsName name n)

pub file_name-canonical :
    (dir name : Text) → IsCanonical dir → IsName name → file_name (dir ++ b'/' ∷ name) ≡ some name
unfolding file_name
file_name-canonical dir name c n =
    rw
      (
        starts_with-canonical dir name c,
        trim_parts-canonical dir name c n,
        last_of-append (pieces_of dir c).pieces name,
      )
      (normal-IsName name n)

up_from-append :
    (ps : List Text) (name : Text) → up_from rooted_text (ps ++ name ∷ []) ≡ some (rooted_text ps)
unfolding up_from
up_from-append [] name = ap (λ x. some (rooted_text x)) (but_last-append [] name)
up_from-append (p ∷ ps) name = ap (λ x. some (rooted_text x)) (but_last-append (p ∷ ps) name)

parent-canonical :
    (dir name : Text) (c : IsCanonical dir)
    → IsName name
    → parent (dir ++ b'/' ∷ name) ≡ some (b'/' ∷ join_parts (pieces_of dir c).pieces)
unfolding parent rooted_text
parent-canonical dir name c n =
    rw (starts_with-canonical dir name c, trim_parts-canonical dir name c n)
      (up_from-append (pieces_of dir c).pieces name
        ∙ ap (λ x. some (b'/' ∷ join_parts x)) (pieces_of dir c).trimmed)

last_is_slash-Lacks : (c : ℕ) (s : Text) → Lacks b'/' (c ∷ s) → last_is_slash (c ∷ s) ≡ false
unfolding last_is_slash
last_is_slash-Lacks c [] (x, h) = ground (arith, x)
last_is_slash-Lacks c (d ∷ s) (x, h) = last_is_slash-Lacks d s h

last_is_slash-name :
    (name : Text) → name ≢ [] → Lacks b'/' name → last_is_slash (b'/' ∷ name) ≡ false
unfolding last_is_slash
last_is_slash-name [] n h = absurd (n refl)
last_is_slash-name (c ∷ s) n h = last_is_slash-Lacks c s h

last_is_slash-append : (s name : Text) → IsName name → last_is_slash (s ++ b'/' ∷ name) ≡ false
unfolding last_is_slash
last_is_slash-append [] name n = last_is_slash-name name n.not_empty n.no_slash
last_is_slash-append (c ∷ []) name n = last_is_slash-name name n.not_empty n.no_slash
last_is_slash-append (c ∷ d ∷ s) name n = last_is_slash-append (d ∷ s) name n

join_lem :
    (c : ℕ) (s name : Text)
    → IsName name
    → last_is_slash (c ∷ s) ≡ false
    → join (c ∷ s) name ≡ (c ∷ s) ++ b'/' ∷ name
unfolding join starts_with
join_lem c s [] n h = absurd (n.not_empty refl)
join_lem c s (d ∷ name) n h = rw h (ground (arith, n.no_slash))

join-root : (name : Text) → IsName name → join (b'/' ∷ []) name ≡ b'/' ∷ name
unfolding join starts_with last_is_slash
join-root [] n = absurd (n.not_empty refl)
join-root (d ∷ name) n = ground (arith, n.no_slash)

pieces-below :
    (dir m : Text) (c : IsCanonical dir) (x : IsName m)
    → b'/' ∷ join_parts (pieces_of (dir ++ b'/' ∷ m) (below c x)).pieces ≡ dir ++ b'/' ∷ m
unfolding pieces_of
pieces-below dir m c x =
    let p = pieces_of (dir ++ b'/' ∷ m) (below c x) in
    sym (join_parts-nil p.pieces (append-ne-nil (pieces_of dir c).pieces m))
    ∙ ap join_parts (sym p.split)
    ∙ join_parts-split_on (dir ++ b'/' ∷ m)
  where
    append-ne-nil : (ps : List Text) (m : Text) → ps ++ m ∷ [] ≢ []
    append-ne-nil [] m = λ e. cc
    append-ne-nil (p ∷ ps) m = λ e. cc

-- The parent, joined with the name, is the path again.
join-parent :
    (dir name : Text) (c : IsCanonical dir)
    → IsName name
    → join (b'/' ∷ join_parts (pieces_of dir c).pieces) name ≡ dir ++ b'/' ∷ name
unfolding join_parts pieces_of
join-parent _ name root n = join-root name n
join-parent _ name (below {dir} {name = m} c x) n =
    let e = pieces-below dir m c x in
    join_lem b'/' (join_parts (pieces_of (dir ++ b'/' ∷ m) (below c x)).pieces) name n
      (ap last_is_slash e ∙ last_is_slash-append dir m x)
    ∙ ap (λ s. s ++ b'/' ∷ name) e

-- What `parent` and `file_name` give for a canonical path.
pub record IsSplit (path name : Text) : Type 0 where
  pub up : Text
  pub parent_is : parent path ≡ some up
  pub file_name_is : file_name path ≡ some name
  pub joined : join up name ≡ path

pub IsCanonical-IsSplit :
    (dir name : Text) → IsCanonical dir → IsName name → IsSplit (dir ++ b'/' ∷ name) name
IsCanonical-IsSplit dir name c n = record {
  up = b'/' ∷ join_parts (pieces_of dir c).pieces;
  parent_is = parent-canonical dir name c n;
  file_name_is = file_name-canonical dir name c n;
  joined = join-parent dir name c n;
}
