-- ===== src/Receiver/Opening/Answers.antt =====
-- How the rounds for one file end, by the answers of the system.
use escp.Base.{
  ℕ, zero, suc, ◌≡◌, ◌≢◌, refl, sym, ap, ◌∙◌, ◌⊎◌, inl, inr, Bool, true, false, not, ◌&&◌, ◌||◌,
  List, [], ◌∷◌, ◌++◌, append-nil, Option, none, some, Text, text_eq, ◌==◌, ==_iff, arith,
  Bool-cases, subst, if◌then◌else◌,
}
use escp.Receiver.State.{FileInformation}
use escp.Str.Paths.{no_parent}
use escp.Receiver.Opening.{
  Env, Io, Effect, opens, creates_parent, preserves, adds, Opened, opened, failed, eisdir, einval,
  emfile, enoent, Ending, added, no_slot, put_off, fails, panics, candidates, record_call,
  other_error, other_path, with_fd, is_directory, not_open, answer, rounds, open_one,
}

-- The files that libdtn has taken, by the calls of `file_addfile` that found a slot: number and
-- descriptor.
unfoldable pub slots : List Effect → List (ℕ × ℕ)
slots [] = []
slots (opens p direct ∷ log) = slots log
slots (creates_parent p ∷ log) = slots log
slots (preserves fd fi ∷ log) = slots log
slots (adds fino fd false ∷ log) = slots log
slots (adds fino fd true ∷ log) = (fino, fd) ∷ slots log

slots-append : (a b : List Effect) → slots (a ++ b) ≡ slots a ++ slots b
unfolding slots
slots-append [] b = refl
slots-append (opens p direct ∷ a) b = slots-append a b
slots-append (creates_parent p ∷ a) b = slots-append a b
slots-append (preserves fd fi ∷ a) b = slots-append a b
slots-append (adds fino fd false ∷ a) b = slots-append a b
slots-append (adds fino fd true ∷ a) b = ap (◌∷◌ (fino, fd)) (slots-append a b)

-- One of the two paths that a name stands for.
abbrev pub IsCandidate : Text → Text → Type 0
IsCandidate path p = ((candidates path).0 ≡ p) ⊎ ((candidates path).1 ≡ some p)

module _ (env : Env) (path : Text) where
  -- `open` gave this answer for the file.
  abbrev pub Answered : Opened → Type 0
  Answered o =
      (n : ℕ) × (p : Text) × (direct : Bool) × IsCandidate path p × (env.open_file n p direct ≡ o)

  -- `open` gave this error; or it gave the descriptor 0, and this errno was left from before.
  abbrev pub Failed : ℕ → Type 0
  Failed errno =
      Answered (failed errno) ⊎ (Answered (opened 0) × ((n : ℕ) × (env.stale_errno n ≡ errno)))

  -- An error that leaves the file for later.
  abbrev pub Retry : Type 0
  Retry =
      (errno : ℕ) × Failed errno
      × ((errno == emfile || errno == enoent || errno == einval || errno == eisdir) ≡ true)

  abbrev pub NoSlot : Type 0
  NoSlot = (n : ℕ) × (env.has_slot n ≡ false)

  -- An error that is reported.
  abbrev pub Refused : ℕ → Type 0
  Refused errno = Failed errno × (errno ≢ emfile) × (errno ≢ enoent)

module _ (env : Env) (fi : FileInformation) where
  -- After the rounds: libdtn has the file, under the descriptor that `open` gave; or it has no file
  -- more than before, for want of a slot, or after the errors of `open`.
  abbrev pub Ends : List (ℕ × ℕ) → Ending × Io → Type 0
  Ends before (added fd, io) =
      (slots io.log ≡ before ++ (fi.fino, fd) ∷ []) × Answered env fi.path (opened fd)
  Ends before (no_slot fd, io) =
      (slots io.log ≡ before) × (Answered env fi.path (opened fd) × NoSlot env fi.path)
  Ends before (put_off, io) = (slots io.log ≡ before) × Retry env fi.path
  Ends before (fails errno, io) = (slots io.log ≡ before) × Refused env fi.path errno
  Ends before (panics, io) = Unit

  -- A call that is none of `file_addfile`.
  slots-quiet :
      (io : Io) (e : Effect) → slots (e ∷ []) ≡ [] → slots ((record_call e io).log) ≡ slots io.log
  unfolding record_call
  slots-quiet io e q =
      slots-append io.log (e ∷ []) ∙ ap (λ x. slots io.log ++ x) q ∙ append-nil (slots io.log)

  -- `file_addfile`, with its answer.
  asked : ℕ → Bool → Io → Ending × Io
  asked fd found io =
      let io' = record_call (adds fi.fino fd found) io in
      if found then (added fd, io') else (no_slot fd, io')

  asked-Ends :
      (fd : ℕ) (found : Bool) (io : Io) (before : List (ℕ × ℕ))
      → slots io.log ≡ before
      → env.has_slot io.calls ≡ found
      → Answered env fi.path (opened fd)
      → Ends before (asked fd found io)
  unfolding asked slots record_call
  asked-Ends fd true io before q h a =
      (slots-append io.log (adds fi.fino fd true ∷ []) ∙ ap (λ x. x ++ (fi.fino, fd) ∷ []) q, a)
  asked-Ends fd false io before q h a =
      (slots-quiet io (adds fi.fino fd false) refl ∙ q, (a, (io.calls, h)))

  with_fd-Ends :
      (fd : ℕ) (io : Io)
      → Answered env fi.path (opened fd)
      → Ends (slots io.log) (with_fd env fi fd io)
  unfolding with_fd asked slots
  with_fd-Ends fd io a = elim (Bool-cases env.do_preserve) [
    | inl q ↦ rw q (
        asked-Ends fd _ (record_call (preserves fd fi) io) (slots io.log)
          (slots-quiet io (preserves fd fi) refl) refl a)
    | inr q ↦ rw q (asked-Ends fd _ io (slots io.log) refl refl a)
  ]

  other_error-Ends :
      (errno : ℕ) (io : Io)
      → Failed env fi.path errno
      → (errno == enoent) ≡ false
      → Ends (slots io.log) (other_error errno, io)
  unfolding other_error
  other_error-Ends errno io a ne = elim (Bool-cases (errno == emfile)) [
    | inl q ↦ rw q (refl, (errno, a, rw q refl))
    | inr q ↦ rw q (refl, (a, (λ e. ground (arith, q, e)), (λ e. ground (arith, ne, e))))
  ]

  -- What the rounds that are left do, once there is a reason to go on.
  abbrev GoesOn : (Text → Io → Ending × Io) → Type 0
  GoesOn again =
      (t : Text) (io : Io)
      → IsCandidate fi.path t
      → Retry env fi.path
      → Ends (slots io.log) (again t io)

  is_directory-Ends :
      (again : Text → Io → Ending × Io) (io : Io) (fp : Text) (alt : Option Text)
      → GoesOn again
      → ((t : Text) → alt ≡ some t → IsCandidate fi.path t)
      → Failed env fi.path eisdir
      → Ends (slots io.log) (is_directory env fi again io (other_path fp alt))
  unfolding is_directory other_path
  is_directory-Ends again io fp none g c a =
      (refl, (a, (λ e. omega (arith, e)), (λ e. omega (arith, e))))
  is_directory-Ends again io fp (some t) g c a = elim (Bool-cases (text_eq t fp)) [
    | inl q ↦ rw q (refl, (a, (λ e. omega (arith, e)), (λ e. omega (arith, e))))
    | inr q ↦ rw q (g t io (c t refl) (eisdir, a, refl))
  ]

  not_open-Ends :
      (again : Text → Io → Ending × Io) (fp : Text) (io : Io) (errno : ℕ)
      → GoesOn again
      → IsCandidate fi.path fp
      → Failed env fi.path errno
      → Ends (slots io.log) (not_open env fi again fp io errno)
  unfolding not_open slots
  not_open-Ends again fp io errno g cf a = elim (Bool-cases (errno == enoent)) [
    | inl r ↦ elim (Bool-cases (no_parent fi.path)) [
      | inl z ↦ rw (r, z) tt
      | inr z ↦
          rw (r, z, sym (slots-quiet io (creates_parent fi.path) refl))
            (g fp (record_call (creates_parent fi.path) io) cf (errno, a, ground (arith, r)))
    ]
    | inr r ↦ rw r (other_error-Ends errno io a r)
  ]

  answer-Ends :
      (again : Text → Io → Ending × Io) (fp : Text) (alt : Option Text) (direct : Bool) (io : Io)
      (o : Opened)
      → GoesOn again
      → IsCandidate fi.path fp
      → ((t : Text) → alt ≡ some t → IsCandidate fi.path t)
      → Answered env fi.path o
      → Ends (slots io.log) (answer env fi again fp alt direct io o)
  unfolding answer slots
  answer-Ends again fp alt direct io (opened fd) g cf ca a = elim (Bool-cases (fd == 0)) [
    | inl q ↦ rw q (
        not_open-Ends again fp io (env.stale_errno io.calls) g cf (
          inr
            (subst (λ k. Answered env fi.path (opened k)) ((==_iff fd 0).0 q) a, (io.calls, refl))))
    | inr q ↦ rw q (with_fd-Ends fd io a)
  ]
  answer-Ends again fp alt direct io (failed errno) g cf ca a =
      elim (Bool-cases (direct && errno == einval)) [
        | inl q ↦ rw q (g fp (record io { nodirect = true }) cf (errno, inl a, ground (arith, q)))
        | inr q ↦ elim (Bool-cases (errno == eisdir)) [
          | inl p ↦
              rw (q, p)
                (is_directory-Ends again io fp alt g ca (
                  inl (subst (λ e. Answered env fi.path (failed e)) ((==_iff errno eisdir).0 p) a)))
          | inr p ↦ rw (q, p) (not_open-Ends again fp io errno g cf (inl a))
        ]
      ]

  -- A round, and those that are left after it.
  round-Ends :
      (n : ℕ) (alt : Option Text) (fp : Text) (io : Io)
      → ((t : Text) → alt ≡ some t → IsCandidate fi.path t)
      → GoesOn (rounds env fi n alt)
      → IsCandidate fi.path fp
      → Ends (slots io.log) (rounds env fi (suc n) alt fp io)
  unfolding rounds slots
  round-Ends n alt fp io ca g cf =
      subst
        (λ l. Ends l (
          answer env fi (rounds env fi n alt) fp alt (not io.nodirect)
            (record_call (opens fp (not io.nodirect)) io)
            (env.open_file io.calls fp (not io.nodirect))))
        (slots-quiet io (opens fp (not io.nodirect)) refl)
        (answer-Ends (rounds env fi n alt) fp alt (not io.nodirect)
          (record_call (opens fp (not io.nodirect)) io)
          (env.open_file io.calls fp (not io.nodirect)) g cf ca
          (io.calls, fp, not io.nodirect, cf, refl))

  rounds-Ends :
      (n : ℕ) (alt : Option Text)
      → ((t : Text) → alt ≡ some t → IsCandidate fi.path t)
      → GoesOn (rounds env fi n alt)
  unfolding rounds
  rounds-Ends zero alt ca fp io cf r = (refl, r)
  rounds-Ends (suc n) alt ca fp io cf r = round-Ends n alt fp io ca (rounds-Ends n alt ca) cf

  -- The rounds for one file.
  pub open_one-Ends : (io : Io) → Ends (slots io.log) (open_one env fi io)
  unfolding open_one
  open_one-Ends io =
      let ca : (t : Text) → (candidates fi.path).1 ≡ some t → IsCandidate fi.path t =
        λ t q. inr q in
      round-Ends 3 ((candidates fi.path).1) ((candidates fi.path).0) io ca
        (rounds-Ends 3 ((candidates fi.path).1) ca) (inl refl)
