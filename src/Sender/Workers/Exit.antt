-- ===== src/Sender/Workers/Exit.antt =====
-- What the exit protocol of the file workers does, and where it hangs.
use escp.Base.{
  ℕ, zero, suc, ◌<◌, ◌≡◌, ◌≢◌, refl, ap, sym, ◌∙◌, subst, inl, inr, Bool, true, false, ◌==◌,
  Bool-cases, true-ne-false, arith,
}
use escp.Sender.Workers.{
  Place, receiving, quiet, marked, left, returned, Workers, put, file_open_count, all_set, mark,
  check, take_file, Step, times_out, marks, checks, takes, returns, fails_open, finds_directory,
  ends_directory, Steps, done, then_steps,
}

-- The worker was ready to exit once, and its bit is not set now.
abbrev pub IsStuck : ℕ → Workers → Type 0
IsStuck k s = (k < file_open_count) × (s.exit_ready k ≡ true) × (s.mask k ≡ false)

-- Nobody leaves the loop by the look at the mask between the two states.
abbrev pub NobodyLeaves : Workers → Workers → Type 0
NobodyLeaves s t = (j : ℕ) → t.place j ≡ left → s.place j ≡ left

all_set-false : (m : ℕ → Bool) (k : ℕ) → k < file_open_count → m k ≡ false → all_set m ≡ false
unfolding all_set
all_set-false m zero h e = rw e refl
all_set-false m (suc zero) h e = ground (arith, e)
all_set-false m (suc (suc zero)) h e = ground (arith, e)
all_set-false m (suc (suc (suc zero))) h e = ground (arith, e)
all_set-false m (suc (suc (suc (suc k)))) h e = absurd (omega arith)

put-left : (k j : ℕ) (p : Place) (f : ℕ → Place) → p ≢ left → put k p f j ≡ left → f j ≡ left
put-left k j p f ne e = elim (Bool-cases (k == j)) [
  | inl q ↦ absurd (ne (rw q at e))
  | inr q ↦ rw q at e
]

put-true : (k j : ℕ) (f : ℕ → Bool) → f j ≡ true → put k true f j ≡ true
put-true k j f e = elim (Bool-cases (k == j)) [ inl q ↦ rw q refl | inr q ↦ rw q e ]

put-false : (k j : ℕ) (f : ℕ → Bool) → f j ≡ false → put k false f j ≡ false
put-false k j f e = elim (Bool-cases (k == j)) [ inl q ↦ rw q refl | inr q ↦ rw q e ]

put_other : (k j : ℕ) (b : Bool) (f : ℕ → Bool) → (k == j) ≡ false → put k b f j ≡ f j
put_other k j b f q = rw q refl

-- One step of anybody keeps a stuck worker stuck, and nobody leaves by the look at the mask.
abbrev StaysStuck : ℕ → Workers → Workers → Type 0
StaysStuck k s t = IsStuck k t × NobodyLeaves s t

mark-StaysStuck : (k j : ℕ) (s : Workers) → IsStuck k s → StaysStuck k s (mark j s)
unfolding mark
mark-StaysStuck k j s (h, r, e) = elim (Bool-cases (s.exit_ready j)) [
  | inl q ↦ rw q ((h, r, e), λ i. put-left j i marked s.place (λ x. cc))
  | inr q ↦ rw q (
    (h, put-true j k s.exit_ready r, put_other j k true s.mask (apart q) ∙ e),
    λ i. put-left j i marked s.place (λ x. cc),
  )
]
  where
    apart : s.exit_ready j ≡ false → (j == k) ≡ false
    apart q = elim (Bool-cases (j == k)) [
      | inl p ↦ absurd (true-ne-false (sym r ∙ ap s.exit_ready (same p) ∙ q))
      | inr p ↦ p
    ]
      where
        same : (j == k) ≡ true → k ≡ j
        same p = ground arith

check-StaysStuck : (k j : ℕ) (s : Workers) → IsStuck k s → StaysStuck k s (check j s)
unfolding check
check-StaysStuck k j s (h, r, e) =
    rw (all_set-false s.mask k h e) ((h, r, e), λ i. put-left j i receiving s.place (λ x. cc))

take_file-StaysStuck : (k j : ℕ) (s : Workers) → IsStuck k s → StaysStuck k s (take_file j s)
unfolding take_file
take_file-StaysStuck k j s (h, r, e) = elim (Bool-cases (s.exit_ready j)) [
  | inl q ↦ rw q ((h, r, put-false j k s.mask e), λ i x. x)
  | inr q ↦ rw q ((h, r, e), λ i x. x)
]

Step-StaysStuck : (k : ℕ) (s t : Workers) → Step s t → IsStuck k s → StaysStuck k s t
Step-StaysStuck k _ _ (times_out j s lt p q) w = (w, λ i. put-left j i quiet s.place (λ x. cc))
Step-StaysStuck k _ _ (marks j s lt p) w = mark-StaysStuck k j s w
Step-StaysStuck k _ _ (checks j s lt p) w = check-StaysStuck k j s w
Step-StaysStuck k _ _ (takes j s lt p) w = take_file-StaysStuck k j s w
Step-StaysStuck k _ _ (returns j s lt p) w = (w, λ i. put-left j i returned s.place (λ x. cc))
Step-StaysStuck k _ _ (fails_open j s lt p) w =
    let (w', f) = take_file-StaysStuck k j s w in
    (w', λ i x. f i (put-left j i returned (take_file j s).place (λ y. cc) x))
Step-StaysStuck k _ _ (finds_directory j s lt p) w = (w, λ i x. x)
Step-StaysStuck k _ _ (ends_directory s) w = (w, λ i x. x)

Steps-StaysStuck : (k : ℕ) (s t : Workers) → Steps s t → IsStuck k s → StaysStuck k s t
Steps-StaysStuck k _ _ (done s) w = (w, λ i x. x)
Steps-StaysStuck k _ _ (then_steps st more) w =
    let (w', f) = Step-StaysStuck k _ _ st w in
    let (w'', g) = Steps-StaysStuck k _ _ more w' in (w'', λ i x. f i (g i x))

-- When a worker that was ready to exit takes another file, then in every later run no worker leaves
-- its loop any more by finding all bits of the mask set: the bit of that worker stays clear, since
-- `exit_ready` stays set. What is left to a worker is to return on an error of `open` or when the
-- channel is closed.
pub take_file-NobodyLeaves :
    (k : ℕ) (s t : Workers)
    → k < file_open_count
    → s.exit_ready k ≡ true
    → Steps (take_file k s) t
    → NobodyLeaves s t
unfolding take_file
take_file-NobodyLeaves k s t h r st j e =
    (Steps-StaysStuck k s' t (subst (λ x. Steps x t) cleared st) (h, r, put_self k s.mask)).1 j e
  where
    s' : Workers
    s' = record s { mask = put k false s.mask }

    cleared : take_file k s ≡ s'
    cleared = rw r refl

    put_self : (k : ℕ) (m : ℕ → Bool) → put k false m k ≡ false
    put_self k m = ground arith
