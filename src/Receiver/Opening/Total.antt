-- ===== src/Receiver/Opening/Total.antt =====
-- When `add_file` returns, and a refusal that it never reports.
use escp.Base.{
  ℕ, zero, suc, ◌≡◌, refl, ap, ◌∙◌, ◌≢◌, inl, inr, Bool, true, false, not, List, [], ◌∷◌, Option,
  none, some, Text, HashMap, ◌==◌, arith, Bool-cases, All,
}
use escp.Receiver.State.{FileInformation}
use escp.Str.Paths.{no_parent}
use escp.Receiver.Opening.{
  Env, Io, Added, Ending, Opened, opened, failed, added, no_slot, put_off, fails, panics, enoent,
  turn, add_file, open_one, rounds, with_fd, not_open, answer, other_path, other_error,
  with_descriptor, record_call, creates_parent, opens,
}

with_fd_runs :
    (env : Env) (fi : FileInformation) (fd : ℕ) (io : Io) → (with_fd env fi fd io).0 ≢ panics
unfolding with_fd
with_fd_runs env fi fd io = ground arith

-- The path of the file is not empty, so that its parent can be created.
module _ (env : Env) (fi : FileInformation) (ne : no_parent fi.path ≡ false) where
  answer_runs :
      (again : Text → Io → Ending × Io)
      → ((fp : Text) (io : Io) → (again fp io).0 ≢ panics)
      → (fp : Text) (alt : Option Text) (direct : Bool) (io : Io) (o : Opened)
      → (answer env fi again fp alt direct io o).0 ≢ panics
  unfolding answer not_open other_error other_path
  answer_runs again ih fp alt direct io (opened fd) =
      ground (arith, with_fd_runs env fi fd io, ih fp (record_call (creates_parent fi.path) io))
  answer_runs again ih fp none direct io (failed errno) = ground (
    arith,
    ih fp (record io { nodirect = true }),
    ih fp (record_call (creates_parent fi.path) io),
  )
  answer_runs again ih fp (some t) direct io (failed errno) = ground (
    arith,
    ih fp (record io { nodirect = true }),
    ih fp (record_call (creates_parent fi.path) io),
    ih t io,
  )

  rounds_run :
      (n : ℕ) (alt : Option Text) (fp : Text) (io : Io) → (rounds env fi n alt fp io).0 ≢ panics
  unfolding rounds
  rounds_run zero alt fp io = λ e. cc
  rounds_run (suc n) alt fp io = answer_runs (rounds env fi n alt) (rounds_run n alt) fp alt _ _ _

  open_one_runs : (io : Io) → (open_one env fi io).0 ≢ panics
  unfolding open_one
  open_one_runs io = rounds_run 4 _ _ io

-- The file is in the map, with a path.
abbrev pub Known : HashMap FileInformation → ℕ → Type 0
Known h k = (fi : FileInformation) × (h k ≡ some fi) × (no_parent fi.path ≡ false)

Known-with_descriptor :
    (k fd : ℕ) (fi : FileInformation) (h : HashMap FileInformation)
    → no_parent fi.path ≡ false
    → (j : ℕ) → Known h j
    → Known (with_descriptor k fd fi h) j
Known-with_descriptor k fd fi h ne j (fj, e, nj) = elim (Bool-cases (k == j)) [
  | inl p ↦ (record fi { fd = fd }, rw p, ne)
  | inr p ↦ (fj, rw p e, nj)
]

All-Known :
    (h h' : HashMap FileInformation) (ks : List ℕ)
    → ((j : ℕ) → Known h j → Known h' j)
    → All (Known h) ks
    → All (Known h') ks
All-Known h h' [] f a = tt
All-Known h h' (k ∷ ks) f a = (f k a.0, All-Known h h' ks f a.1)

turn_returns :
    (rest : Io → HashMap FileInformation → ℕ → Option Added) (k : ℕ) (ks : List ℕ)
    (h : HashMap FileInformation) (n : ℕ) (fi : FileInformation) (o : Ending × Io)
    → ((io : Io) (fd : ℕ) → (a : Added) × (rest io (with_descriptor k fd fi h) (suc n) ≡ some a))
    → o.0 ≢ panics
    → (a : Added) × (turn rest k ks h n fi o ≡ some a)
unfolding turn
turn_returns rest k ks h n fi (added fd, io) ih np = ih io fd
turn_returns rest k ks h n fi (no_slot fd, io) ih np = (_, refl)
turn_returns rest k ks h n fi (put_off, io) ih np = (_, refl)
turn_returns rest k ks h n fi (fails errno, io) ih np = (_, refl)
turn_returns rest k ks h n fi (panics, io) ih np = absurd (np refl)

-- `add_file` does not panic, whatever the system answers, if every file of the queue is in the map
-- with a path that has a parent.
pub add_file_returns :
    (env : Env) (ks : List ℕ) (io : Io) (h : HashMap FileInformation) (n : ℕ)
    → All (Known h) ks
    → (a : Added) × (add_file env ks io h n ≡ some a)
unfolding add_file
add_file_returns env [] io h n w = (_, refl)
add_file_returns env (k ∷ ks) io h n ((fi, e, ne), w) =
    rw (e, add_file)
      (turn_returns (add_file env ks) k ks h n fi (open_one env fi io)
        (λ io' fd.
          add_file_returns env ks io' _ (suc n)
            (All-Known h _ ks (Known-with_descriptor k fd fi h ne) w))
        (open_one_runs env fi ne io))

-- Every `open` fails with ENOENT: the parent directory cannot be created.
abbrev pub NeverFound : Env → Type 0
NeverFound env = (n : ℕ) (p : Text) (direct : Bool) → env.open_file n p direct ≡ failed enoent

answer-enoent :
    (env : Env) (fi : FileInformation)
    → no_parent fi.path ≡ false
    → (again : Text → Io → Ending × Io) (fp : Text) (alt : Option Text) (direct : Bool) (io : Io)
    → answer env fi again fp alt direct io (failed enoent)
      ≡ again fp (record_call (creates_parent fi.path) io)
unfolding answer not_open
answer-enoent env fi ne again fp alt direct io = ground arith

rounds_put_off :
    (env : Env) (fi : FileInformation)
    → NeverFound env
    → no_parent fi.path ≡ false
    → (n : ℕ) (alt : Option Text) (fp : Text) (io : Io) → (rounds env fi n alt fp io).0 ≡ put_off
unfolding rounds answer
rounds_put_off env fi nf ne zero alt fp io = refl
rounds_put_off env fi nf ne (suc n) alt fp io =
    ap
      (λ o.
        (answer env fi (rounds env fi n alt) fp alt (not io.nodirect)
          (record_call (opens fp (not io.nodirect)) io) o).0)
      (nf io.calls fp (not io.nodirect))
    ∙ ap (λ (p : Ending × Io). p.0)
        (answer-enoent env fi ne (rounds env fi n alt) fp alt (not io.nodirect)
          (record_call (opens fp (not io.nodirect)) io))
    ∙ rounds_put_off env fi nf ne n alt fp _

-- The queue, the counts and the map as they were, and no error.
abbrev pub Unmoved : ℕ → List ℕ → HashMap FileInformation → ℕ → Option Added → Type 0
Unmoved k ks h n o =
    (a : Added) × (o ≡ some a)
    × (a.queue ≡ k ∷ ks)
    × (a.filecount ≡ n)
    × (a.file_error ≡ 0)
    × (a.hash ≡ h)

turn_put_off :
    (rest : Io → HashMap FileInformation → ℕ → Option Added) (k : ℕ) (ks : List ℕ)
    (h : HashMap FileInformation) (n : ℕ) (fi : FileInformation) (o : Ending × Io)
    → o.0 ≡ put_off
    → Unmoved k ks h n (turn rest k ks h n fi o)
unfolding turn
turn_put_off rest k ks h n fi (added fd, io) e = cc
turn_put_off rest k ks h n fi (no_slot fd, io) e = cc
turn_put_off rest k ks h n fi (put_off, io) e = (_, refl, refl, refl, refl, refl)
turn_put_off rest k ks h n fi (fails errno, io) e = cc
turn_put_off rest k ks h n fi (panics, io) e = cc

-- Then the file at the front stays there, nothing is added and no error is returned, so the sender is
-- never told.
pub add_file-NeverFound :
    (env : Env) (k : ℕ) (ks : List ℕ) (io : Io) (h : HashMap FileInformation) (n : ℕ)
    → NeverFound env
    → Known h k
    → Unmoved k ks h n (add_file env (k ∷ ks) io h n)
unfolding add_file open_one
add_file-NeverFound env k ks io h n nf (fi, e, ne) =
    rw (e, add_file)
      (turn_put_off (add_file env ks) k ks h n fi (open_one env fi io)
        (rounds_put_off env fi nf ne 4 _ _ io))
