-- ===== src/Receiver/Checksums.antt =====
-- `cksum_worker` of src/escp/receiver.rs: the checksums of blocks go to a file for each file number.
use escp.Base.{
  ℕ, suc, ◌+◌, ◌≤◌, ◌<◌, ◌≡◌, ◌≢◌, Bool, false, length, arith, refl, ap, sym, ◌∙◌, inl, inr, List,
  [], ◌∷◌, ◌++◌, append_assoc, append-nil, Option, none, some, All, ◌==◌, ==_iff, if◌then◌else◌,
  Bool-cases,
}

-- `cksum_t`, with the rest of its bytes as one number.
pub record Cksum : Type 0 where
  pub fino : ℕ
  pub data_ : ℕ

-- What is in a file: a checksum and how many of its bytes were written, for each call of `write_all`,
-- whose error is ignored.
abbrev pub Piece : Type 0
Piece = Cksum × ℕ

-- What the system answers for the n-th checksum: can its file be opened, and how many bytes of the
-- checksum does `write_all` write.
pub record Storage : Type 0 where
  pub opens : ℕ → Bool
  pub writes : ℕ → ℕ

-- The files of the session's directory, by the file numbers that name them, and the worker's variables;
-- `fd` is the file that is open for appending.
pub record Folder : Type 0 where
  pub contents : ℕ → List Piece
  pub current_fino : ℕ
  pub fd : Option ℕ

append_to : ℕ → Piece → (ℕ → List Piece) → ℕ → List Piece
append_to k c contents j = if k == j then contents j ++ c ∷ [] else contents j

write_all : Option ℕ → Piece → Folder → Folder
unfolding append_to
write_all none c s = s
write_all (some k) c s = record s { contents = append_to k c s.contents }

module _ (d : Storage) (n : ℕ) where
  -- Another file number: open its file, or panic.
  reopen : Cksum → Folder → Option Folder
  reopen c s =
      if c.fino == s.current_fino
      then some s
      else if d.opens n
      then some (record s { current_fino = c.fino; fd = some c.fino })
      else none

  write_to : Cksum → Option Folder → Option Folder
  unfolding write_all
  write_to c none = none
  write_to c (some s) = some (write_all s.fd (c, d.writes n) s)

  -- The n-th checksum out of libdtn's queue.
  store : Cksum → Folder → Option Folder
  unfolding reopen write_to
  store c s = write_to c (reopen c s)

go_on : (Folder → Option Folder) → Option Folder → Option Folder
go_on next none = none
go_on next (some s) = next s

-- The loop, with the checksums that the queue gives until the threads have finished; `none` is the panic.
pub cksum_worker : Storage → ℕ → List Cksum → Folder → Option Folder
unfolding store go_on
cksum_worker d n [] s = some s
cksum_worker d n (c ∷ cs) s = go_on (cksum_worker d (suc n) cs) (store d n c s)

-- At the start.
abbrev pub cksum_start : (ℕ → List Piece) → Folder
cksum_start contents = record { contents = contents; current_fino = 0; fd = none }

-- The checksums of a file, from the n-th on in their order, each with what was written of it.
pub of_file : Storage → ℕ → ℕ → List Cksum → List Piece
of_file d n k [] = []
of_file d n k (c ∷ cs) =
    let rest = of_file d (suc n) k cs in if c.fino == k then (c, d.writes n) ∷ rest else rest

-- The worker stored all there is, or it panicked since a file could not be opened.
abbrev pub Stores : Storage → ℕ → List Cksum → (ℕ → List Piece) → Option Folder → Type 0
Stores d n cs contents none = (m : ℕ) × (n ≤ m) × (m < n + length cs) × (d.opens m ≡ false)
Stores d n cs contents (some s) = (k : ℕ) → s.contents k ≡ contents k ++ of_file d n k cs

-- The file that is open is the current one; before the first one, the current number is 0.
abbrev IsOpened : Option ℕ → ℕ → Type 0
IsOpened none k = k ≡ 0
IsOpened (some j) k = j ≡ k

abbrev Stored : Storage → ℕ → Cksum → Folder → Option Folder → Type 0
Stored d n c s none = d.opens n ≡ false
Stored d n c s (some u) =
    (u.contents ≡ append_to c.fino (c, d.writes n) s.contents) × IsOpened u.fd u.current_fino

store-Stored :
    (d : Storage) (n : ℕ) (c : Cksum) (s : Folder)
    → c.fino ≢ 0
    → IsOpened s.fd s.current_fino
    → Stored d n c s (store d n c s)
unfolding store reopen write_to write_all
store-Stored d n c s ne o = elim (Bool-cases (c.fino == s.current_fino)) [
  | inl q ↦ rw q (go s.fd o ((==_iff c.fino s.current_fino).0 q))
  | inr q ↦ elim (Bool-cases (d.opens n)) [ inl p ↦ rw (q, p) (refl, refl) | inr p ↦ rw (q, p) p ]
]
  where
    go :
        (fd : Option ℕ)
        → IsOpened fd s.current_fino
        → c.fino ≡ s.current_fino
        → ((write_all fd (c, d.writes n) s).contents ≡ append_to c.fino (c, d.writes n) s.contents)
          × IsOpened
              ((write_all fd (c, d.writes n) s).fd)
              ((write_all fd (c, d.writes n) s).current_fino)
    go none z e = absurd (ne (e ∙ z))
    go (some j) z e = (ap (λ k. append_to k (c, d.writes n) s.contents) (z ∙ sym e), o)

append_to-of_file :
    (d : Storage) (n k : ℕ) (c : Cksum) (cs : List Cksum) (contents : ℕ → List Piece)
    → append_to c.fino (c, d.writes n) contents k ++ of_file d (suc n) k cs
      ≡ contents k ++ of_file d n k (c ∷ cs)
unfolding append_to of_file
append_to-of_file d n k c cs contents = elim (Bool-cases (c.fino == k)) [
  | inl q ↦ rw q (append_assoc (contents k) ((c, d.writes n) ∷ []) (of_file d (suc n) k cs))
  | inr q ↦ rw q refl
]

-- One checksum more.
Stores-cons :
    (d : Storage) (n : ℕ) (c : Cksum) (cs : List Cksum) (s u : Folder) (o : Option Folder)
    → u.contents ≡ append_to c.fino (c, d.writes n) s.contents
    → Stores d (suc n) cs u.contents o
    → Stores d n (c ∷ cs) s.contents o
Stores-cons d n c cs s u none e (m, le, lt, q) = (m, omega (arith, le), omega (arith, lt), q)
Stores-cons d n c cs s u (some v) e h =
    λ k. h k ∙ ap (λ f. f k ++ of_file d (suc n) k cs) e ∙ append_to-of_file d n k c cs s.contents

cksum_worker-Stores :
    (d : Storage) (n : ℕ) (cs : List Cksum) (s : Folder)
    → All (λ c. c.fino ≢ 0) cs
    → IsOpened s.fd s.current_fino
    → Stores d n cs s.contents (cksum_worker d n cs s)
unfolding cksum_worker of_file go_on
cksum_worker-Stores d n [] s h o = λ k. sym (append-nil (s.contents k))
cksum_worker-Stores d n (c ∷ cs) s (ne, h) o =
    by_store (store d n c s) (store-Stored d n c s ne o)
      (λ u q. cksum_worker-Stores d (suc n) cs u h q)
  where
    by_store :
        (r : Option Folder)
        → Stored d n c s r
        → ((u : Folder)
            → IsOpened u.fd u.current_fino
            → Stores d (suc n) cs u.contents (cksum_worker d (suc n) cs u))
        → Stores d n (c ∷ cs) s.contents (go_on (cksum_worker d (suc n) cs) r)
    by_store none q next = (n, omega arith, omega arith, q)
    by_store (some u) (e, p) next =
        Stores-cons d n c cs s u (cksum_worker d (suc n) cs u) e (next u p)

-- If no checksum has the file number 0, then the worker appends to each file the checksums with its
-- number, in the order of the queue, however the files take turns, each as far as it could be written,
-- and changes no other file; or it panics, since at one of the checksums its file could not be opened.
pub cksum_worker-start :
    (d : Storage) (cs : List Cksum) (contents : ℕ → List Piece)
    → All (λ c. c.fino ≢ 0) cs
    → Stores d 0 cs contents (cksum_worker d 0 cs (cksum_start contents))
cksum_worker-start d cs contents h = cksum_worker-Stores d 0 cs (cksum_start contents) h refl
