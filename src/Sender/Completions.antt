-- ===== src/Sender/Completions.antt =====
-- `send_file_complete`: telling the receiver how many blocks each finished file has.
use mathlib.Core.List.{Perm}
use mathlib.Core.List.Perm
use escp.Base.{
  ℕ, zero, suc, ◌≡◌, refl, ap, sym, ◌∙◌, List, [], ◌∷◌, ◌++◌, map, Option, none, some, append-nil,
  append_assoc,
}
use escp.Base.Int.{pos, as_i64}
use escp.Base.Sort.{sort_by_key, Perm-sort_by_key}
use escp.Wire.FileSpec.{File, file_default, FileList, file_list_default}

-- A file number and its number of blocks.
abbrev pub Completion : Type 0
Completion = ℕ × ℕ

-- What `recv_timeout` on `fc2_out` gives.
pub data Received : Type 0 where
  got : Completion → Received
  timed_out : Received
  closed : Received

-- The drained entries, or the early return when the channel is closed.
pub data Drained : Type 0 where
  drained : List Completion → Drained
  returns : Drained

-- `n` more entries, until `vec.len() > 2600`.
drain : ℕ → List Received → List Completion → Drained
drain zero rest vec = drained vec
drain (suc n) [] vec = drained vec
drain (suc n) (timed_out ∷ rest) vec = drained vec
drain (suc n) (closed ∷ rest) vec = returns
drain (suc n) (got c ∷ rest) vec = drain n rest (vec ++ c ∷ [])

pub file_blocks : Completion → File
file_blocks c = record file_default { fino = c.0; blocks = as_i64 (c.1) }

completion_list : List Completion → Option FileList
completion_list [] = none
completion_list (c ∷ cs) =
    some (record file_list_default { files = some (map file_blocks (c ∷ cs)) })

completions_of : Drained → Option FileList
completions_of returns = none
completions_of (drained vec) = completion_list (sort_by_key (λ (c : Completion). c.0) vec)

-- The message that is sent, if there is one; the channel is as the list says, and silent at its end.
pub send_file_complete : List Received → Option FileList
send_file_complete channel = completions_of (drain 2601 channel [])

-- The entries that come before a time-out or the end, `n` at most; none if the channel closes.
abbrev pub taken : ℕ → List Received → Option (List Completion)
taken zero rest = some []
taken (suc n) [] = some []
taken (suc n) (timed_out ∷ rest) = some []
taken (suc n) (closed ∷ rest) = none
taken (suc n) (got c ∷ rest) = elim (taken n rest) [ none ↦ none | some cs ↦ some (c ∷ cs) ]

-- One file for each entry, with its number and its blocks as an i64.
abbrev pub Pairs : List Completion → List File → Type 0
Pairs [] [] = Unit
Pairs [] (_ ∷ _) = ⊥
Pairs (_ ∷ _) [] = ⊥
Pairs ((fino, blocks) ∷ cs) (f ∷ fs) =
    (f.fino ≡ fino) × (f.blocks ≡ as_i64 blocks) × (f.sz ≡ pos 0) × Pairs cs fs

-- The message is a list without a root, which is how the receiver knows completions; its files are
-- those in `cs`, each once, with its number and blocks.
abbrev pub Tells : Option (List Completion) → Option FileList → Type 0
Tells none m = m ≡ none
Tells (some []) m = m ≡ none
Tells (some (c ∷ cs)) m =
    (told : List Completion) × Perm told (c ∷ cs)
    × (l : FileList) × (fs : List File) × (m ≡ some l)
    × (l.root ≡ none)
    × (l.files ≡ some fs)
    × Pairs told fs

drain-taken :
    (n : ℕ) (channel : List Received) (vec : List Completion)
    → drain n channel vec
      ≡ elim (taken n channel) as (λ _. Drained) [ none ↦ returns | some cs ↦ drained (vec ++ cs) ]
unfolding drain
drain-taken zero rest vec = ap drained (sym (append-nil vec))
drain-taken (suc n) [] vec = ap drained (sym (append-nil vec))
drain-taken (suc n) (timed_out ∷ rest) vec = ap drained (sym (append-nil vec))
drain-taken (suc n) (closed ∷ rest) vec = refl
drain-taken (suc n) (got c ∷ rest) vec = drain-taken n rest (vec ++ c ∷ []) ∙ regroup (taken n rest)
  where
    regroup :
        (o : Option (List Completion))
        → elim o as (λ _. Drained) [ none ↦ returns | some cs ↦ drained ((vec ++ c ∷ []) ++ cs) ]
          ≡ elim (elim o as (λ _. Option (List Completion)) [
            | none ↦ none
            | some cs ↦ some (c ∷ cs)
          ])
              as (λ _. Drained) [ none ↦ returns | some cs ↦ drained (vec ++ cs) ]
    regroup none = refl
    regroup (some cs) = ap drained (append_assoc vec (c ∷ []) cs)

file_blocks-Pairs : (cs : List Completion) → Pairs cs (map file_blocks cs)
unfolding file_blocks
file_blocks-Pairs [] = tt
file_blocks-Pairs ((fino, blocks) ∷ cs) = (refl, refl, refl, file_blocks-Pairs cs)

Tells-completion_list :
    (cs told : List Completion) → Perm told cs → Tells (some cs) (completion_list told)
unfolding completion_list
Tells-completion_list [] [] p = refl
Tells-completion_list [] (t ∷ told) p = absurd (cons-ne-nil (Perm.eq-nil p))
  where
    cons-ne-nil : (t ∷ told) ≡ [] → ⊥
    cons-ne-nil q = cc
Tells-completion_list (c ∷ cs) [] p = absurd (nil-ne-cons (Perm.nil-eq p))
  where
    nil-ne-cons : [] ≡ (c ∷ cs) → ⊥
    nil-ne-cons q = cc
Tells-completion_list (c ∷ cs) (t ∷ told) p =
    (t ∷ told, p, _, _, refl, refl, refl, file_blocks-Pairs (t ∷ told))

-- The message tells the receiver of the entries that were ready in the channel, 2601 at most, each
-- once with its number of blocks; there is no message if there were none. If the channel closes, the
-- entries that were taken out of it are dropped and nothing is sent.
pub send_file_complete-Tells :
    (channel : List Received) → Tells (taken 2601 channel) (send_file_complete channel)
unfolding send_file_complete completions_of
send_file_complete-Tells channel = rw (drain-taken 2601 channel []) (of_taken (taken 2601 channel))
  where
    of_taken :
        (o : Option (List Completion))
        → Tells o
            (completions_of (elim o as (λ _. Drained) [ none ↦ returns | some cs ↦ drained cs ]))
    of_taken none = refl
    of_taken (some cs) = Tells-completion_list cs _ (Perm-sort_by_key (λ (c : Completion). c.0) cs)
