-- ===== src/Receiver/Opening/Outcome.antt =====
-- What `add_file` leaves behind.
use escp.Base.{
  ℕ, suc, ◌+◌, ◌≡◌, refl, Text, append_assoc, append-nil, ap, sym, ◌∙◌, ◌⊎◌, inl, inr, List, [],
  ◌∷◌, ◌++◌, Option, none, some, HashMap, length, length-append, ◌==◌, arith, Option-cases, subst,
  Bool-cases, ==_iff, some_inj, none-ne-some,
}
use escp.Receiver.State.{FileInformation}
use escp.Receiver.Opening.Answers.{slots, Answered, Retry, NoSlot, Refused, Ends, open_one-Ends}
use escp.Receiver.Opening.{
  opened, Env, Io, Added, Ending, added, no_slot, put_off, fails, panics, turn, add_file, open_one,
  with_descriptor,
}

-- Two entries that differ in the descriptor at most.
abbrev pub SameFile : Option FileInformation → Option FileInformation → Type 0
SameFile a none = a ≡ none
SameFile a (some fi) = (fd : ℕ) × (a ≡ some (record fi { fd = fd }))

SameFile-refl : (a : Option FileInformation) → SameFile a a
SameFile-refl none = refl
SameFile-refl (some fi) = (fi.fd, refl)

SameFile-trans : (a b c : Option FileInformation) → SameFile a b → SameFile b c → SameFile a c
SameFile-trans a b none p q = subst (SameFile a) q p
SameFile-trans a b (some fi) p (fd, q) = let (fd', e) = subst (SameFile a) q p in (fd', e)

-- The map has the file, with that path and number.
abbrev pub FileAt : HashMap FileInformation → ℕ → Text → ℕ → Type 0
FileAt h k path fino =
    (fi : FileInformation) × (h k ≡ some fi) × (fi.path ≡ path) × (fi.fino ≡ fino)

FileAt-back :
    (h h' : HashMap FileInformation) (k : ℕ) (path : Text) (fino : ℕ)
    → SameFile (h' k) (h k)
    → FileAt h' k path fino
    → FileAt h k path fino
FileAt-back h h' k path fino s (fi, e, p, f) = elim (Option-cases (h k)) [
  | inl q ↦ absurd (none-ne-some (sym (subst (SameFile (h' k)) q s) ∙ e))
  | inr (fi', q) ↦ same_parts fi' q (subst (SameFile (h' k)) q s)
]
  where
    same_parts :
        (fi' : FileInformation) → h k ≡ some fi' → SameFile (h' k) (some fi') → FileAt h k path fino
    same_parts fi' q (fd, r) =
        let x = some_inj (sym e ∙ r) in
        (
          fi',
          q,
          ap (λ (y : FileInformation). y.path) (sym x) ∙ p,
          ap (λ (y : FileInformation). y.fino) (sym x) ∙ f,
        )

-- The files that libdtn has taken are those of the queue's front, each with its number, under a
-- descriptor that `open` gave for its path.
abbrev pub Taken : Env → HashMap FileInformation → List ℕ → List (ℕ × ℕ) → Type 0
Taken env h [] [] = Unit
Taken env h [] (_ ∷ _) = ⊥
Taken env h (_ ∷ _) [] = ⊥
Taken env h (k ∷ ks) ((fino, fd) ∷ ps) =
    (path : Text) × FileAt h k path fino × Answered env path (opened fd) × Taken env h ks ps

-- Why the file at the front stays there, by the error that is returned: none, since `open` failed in a
-- way that leaves the file for later, or there was no slot; or an error that `open` gave, or that was
-- left from before when it gave the descriptor 0.
abbrev pub Reason : Env → Text → ℕ → Type 0
Reason env path e = ((e ≡ 0) × (Retry env path ⊎ NoSlot env path)) ⊎ Refused env path e

abbrev pub Stays : Env → HashMap FileInformation → List ℕ → ℕ → Type 0
Stays env h [] e = e ≡ 0
Stays env h (k ∷ ks) e = (path : Text) × (fino : ℕ) × FileAt h k path fino × Reason env path e

-- The files added are those that stood at the front of the queue, in order, and libdtn has taken these
-- and no others; the rest is still there. The file that is now at the front stays for a reason, and the
-- error is about it. No entry of the map changes but in its descriptor.
pub record Report (env : Env) (ks : List ℕ) (io : Io) (h : HashMap FileInformation) (n : ℕ)
    (a : Added) : Type 0 where
  pub done : List ℕ
  pub split : ks ≡ done ++ a.queue
  pub counted : a.filecount ≡ n + length done
  pub new : List (ℕ × ℕ)
  pub slotted : slots a.io.log ≡ slots io.log ++ new
  pub taken : Taken env h done new
  pub stays : Stays env h a.queue a.file_error
  pub same : (j : ℕ) → SameFile (a.hash j) (h j)

with_descriptor-same :
    (k fd : ℕ) (fi : FileInformation) (h : HashMap FileInformation)
    → h k ≡ some fi
    → (j : ℕ) → SameFile (with_descriptor k fd fi h j) (h j)
with_descriptor-same k fd fi h e j = elim (Bool-cases (k == j)) [
  | inl p ↦ rw (ap h (sym ((==_iff k j).0 p)) ∙ e, p) (fd, refl)
  | inr p ↦ rw p (SameFile-refl (h j))
]

Taken-back :
    (env : Env) (h h' : HashMap FileInformation)
    → ((j : ℕ) → SameFile (h' j) (h j))
    → (ks : List ℕ) (ps : List (ℕ × ℕ)) → Taken env h' ks ps
    → Taken env h ks ps
Taken-back env h h' s [] [] t = tt
Taken-back env h h' s [] (p ∷ ps) t = absurd t
Taken-back env h h' s (k ∷ ks) [] t = absurd t
Taken-back env h h' s (k ∷ ks) ((fino, fd) ∷ ps) (path, f, a, t) =
    (path, FileAt-back h h' k path fino (s k) f, a, Taken-back env h h' s ks ps t)

Stays-back :
    (env : Env) (h h' : HashMap FileInformation)
    → ((j : ℕ) → SameFile (h' j) (h j))
    → (ks : List ℕ) (e : ℕ) → Stays env h' ks e
    → Stays env h ks e
Stays-back env h h' s [] e t = t
Stays-back env h h' s (k ∷ ks) e (path, fino, f, r) =
    (path, fino, FileAt-back h h' k path fino (s k) f, r)

module _ (env : Env) (k : ℕ) (ks : List ℕ) (io : Io) (h : HashMap FileInformation) (n : ℕ)
    (fi : FileInformation) (known : h k ≡ some fi) where
  here : FileAt h k fi.path fi.fino
  here = (fi, known, refl, refl)

  -- A call that adds the front file, then reports on the rest.
  Report-added :
      (fd : ℕ) (io' : Io) (a : Added)
      → Ends env fi (slots io.log) (added fd, io')
      → Report env ks io' (with_descriptor k fd fi h) (suc n) a
      → Report env (k ∷ ks) io h n a
  Report-added fd io' a (q, x) r =
      let s = with_descriptor-same k fd fi h known in
      record {
        done = k ∷ r.done;
        split = ap (◌∷◌ k) r.split;
        counted = omega (arith, r.counted);
        new = (fi.fino, fd) ∷ r.new;
        slotted =
            r.slotted
            ∙ ap (λ l. l ++ r.new) q
            ∙ append_assoc (slots io.log) ((fi.fino, fd) ∷ []) r.new;
        taken =
            (fi.path, here, x, Taken-back env h (with_descriptor k fd fi h) s r.done r.new r.taken);
        stays = Stays-back env h (with_descriptor k fd fi h) s a.queue a.file_error r.stays;
        same = λ j. SameFile-trans (a.hash j) _ (h j) (r.same j) (s j);
      }

  -- A call that leaves the front file where it is.
  Report-stopped :
      (b a : Added)
      → b.queue ≡ k ∷ ks
      → b.filecount ≡ n
      → slots b.io.log ≡ slots io.log
      → Reason env fi.path b.file_error
      → ((j : ℕ) → SameFile (b.hash j) (h j))
      → some b ≡ some a
      → Report env (k ∷ ks) io h n a
  Report-stopped b a q c l r s e = subst (Report env (k ∷ ks) io h n) (some_inj e) (record {
    done = [];
    split = sym q;
    counted = omega (arith, c);
    new = [];
    slotted = l ∙ sym (append-nil (slots io.log));
    taken = tt;
    stays = subst (λ x. Stays env h x b.file_error) (sym q) (fi.path, fi.fino, here, r);
    same = s;
  })

  turn-Report :
      (rest : Io → HashMap FileInformation → ℕ → Option Added) (o : Ending × Io) (a : Added)
      → ((io' : Io) (h' : HashMap FileInformation) (m : ℕ)
          → rest io' h' m ≡ some a
          → Report env ks io' h' m a)
      → Ends env fi (slots io.log) o
      → turn rest k ks h n fi o ≡ some a
      → Report env (k ∷ ks) io h n a
  unfolding turn
  turn-Report rest (added fd, io') a ih x q = Report-added fd io' a x (ih io' _ _ q)
  turn-Report rest (no_slot fd, io') a ih (l, (x, s)) q =
      Report-stopped _ a refl refl l (inl (refl, inr s)) (with_descriptor-same k fd fi h known) q
  turn-Report rest (put_off, io') a ih (l, r) q =
      Report-stopped _ a refl refl l (inl (refl, inl r)) (λ j. SameFile-refl (h j)) q
  turn-Report rest (fails errno, io') a ih (l, r) q =
      Report-stopped _ a refl refl l (inr r) (λ j. SameFile-refl (h j)) q
  turn-Report rest (panics, io') a ih x q = absurd (none-ne-some q)

-- Whatever the system answers, if `add_file` returns, it has added a front part of the queue, in
-- order and as many as it says: libdtn has taken these files and no others, each under a descriptor
-- that `open` gave for its path. The rest stands in the queue. The file now at its front stays there
-- with no error returned, because `open` failed with one of the errors that leave it for later
-- (EMFILE, ENOENT, EINVAL, EISDIR) or no slot was found; or with the error that `open` gave for it,
-- which is neither EMFILE nor ENOENT. Where `open` gave the descriptor 0, the error is the errno that
-- was left from before. The map keeps its files, with new descriptors at most.
pub add_file-Report :
    (env : Env) (ks : List ℕ) (io : Io) (h : HashMap FileInformation) (n : ℕ) (a : Added)
    → add_file env ks io h n ≡ some a
    → Report env ks io h n a
unfolding add_file
add_file-Report env [] io h n a q = subst (Report env [] io h n) (some_inj q) (record {
  done = [];
  split = refl;
  counted = omega arith;
  new = [];
  slotted = sym (append-nil (slots io.log));
  taken = tt;
  stays = refl;
  same = λ j. SameFile-refl (h j);
})
add_file-Report env (k ∷ ks) io h n a q = elim (Option-cases (h k)) [
  | inl e ↦ absurd (none-ne-some (rw (e, add_file) at q))
  | inr (fi, e) ↦
      turn-Report env k ks io h n fi e (add_file env ks) (open_one env fi io) a
        (λ io' h' m. add_file-Report env ks io' h' m a) (open_one-Ends env fi io)
        (rw (e, add_file) at q)
]

-- The count of the files added is that of the slots taken.
pub add_file-slots :
    (env : Env) (ks : List ℕ) (io : Io) (h : HashMap FileInformation) (a : Added)
    → add_file env ks io h 0 ≡ some a
    → length (slots a.io.log) ≡ length (slots io.log) + a.filecount
add_file-slots env ks io h a q =
    let r = add_file-Report env ks io h 0 a q in
    omega (
      arith,
      ap length r.slotted,
      length-append (slots io.log) r.new,
      Taken-length r.done r.new r.taken,
      r.counted,
    )
  where
    Taken-length : (ks : List ℕ) (ps : List (ℕ × ℕ)) → Taken env h ks ps → length ps ≡ length ks
    Taken-length [] [] t = refl
    Taken-length [] (p ∷ ps) t = absurd t
    Taken-length (k ∷ ks) [] t = absurd t
    Taken-length (k ∷ ks) ((fino, fd) ∷ ps) (path, f, a, t) = ap suc (Taken-length ks ps t)
