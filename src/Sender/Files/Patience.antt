-- ===== src/Sender/Files/Patience.antt =====
-- The loop around `open` ends once the system stops answering EMFILE.
use escp.Base.{
  ℕ, zero, suc, ◌+◌, ◌≤◌, ◌<◌, ◌≡◌, ◌≢◌, refl, inl, inr, Bool, true, false, not, ◌||◌, [], Option,
  none, some, Text, text_eq, if◌then◌else◌, ◌==◌, ==_iff, arith, Bool-cases,
}
use escp.Str.Paths.{path_starts_with}
use escp.Receiver.Opening.{Opened, opened, failed, einval, emfile}
use escp.Sender.Batch.{Stat}
use escp.Sender.Files.{
  Disk, Item, Opener, Attempt, got, gives_up, tries_again, refusal, by_answer, call_open,
  open_plainly, by_direct_answer, open_once, ignored, waits, by_mode, by_type, by_stat, Handled,
  after_round, open_loop, path_of, handle,
}

module _ (d : Disk) (last : ℕ) where
  -- A round that is to be made again comes before the last EMFILE, and makes a call.
  Advances : Opener → Attempt × Opener → Type 0
  Advances w (got fd, v) = Unit
  Advances w (gives_up errno, v) = Unit
  Advances w (tries_again, v) = (suc w.calls ≤ v.calls) × (w.calls < last)

  module _
      (patient : (n : ℕ) (path : Text) (direct : Bool)
        → d.open_file n path direct ≡ failed emfile
        → n < last)
      (path : Text) where
    refusal-Advances :
        (w v : Opener) (n errno : ℕ) (direct : Bool)
        → d.open_file n path direct ≡ failed errno
        → w.calls ≤ n
        → suc n ≤ v.calls
        → Advances w (refusal errno, v)
    unfolding Advances refusal
    refusal-Advances w v n errno direct q a b = elim (Bool-cases (errno == emfile)) [
      | inl e ↦ rw e (
          (
            omega (arith, a, b),
            omega (arith, a, patient n path direct (same ((==_iff errno emfile).0 e))),
          ))
      | inr e ↦ rw e tt
    ]
      where
        same : errno ≡ emfile → d.open_file n path direct ≡ failed emfile
        same e = rw (q, e) refl

    by_answer-Advances :
        (w v : Opener) (n : ℕ) (o : Opened)
        → d.open_file n path false ≡ o
        → w.calls ≤ n
        → suc n ≤ v.calls
        → Advances w (by_answer o, v)
    unfolding Advances by_answer
    by_answer-Advances w v n (opened fd) q a b = tt
    by_answer-Advances w v n (failed errno) q a b = refusal-Advances w v n errno false q a b

    open_plainly-Advances : (w v : Opener) → w.calls ≤ v.calls → Advances w (open_plainly d path v)
    unfolding open_plainly call_open
    open_plainly-Advances w v a =
        by_answer-Advances w (call_open (record v { direct_mode = false })) v.calls
          (d.open_file v.calls path false) refl a (omega arith)

    by_direct_answer-Advances :
        (w : Opener) (o : Opened)
        → d.open_file w.calls path true ≡ o
        → Advances w (by_direct_answer d path (call_open w) o)
    unfolding Advances by_direct_answer call_open
    by_direct_answer-Advances w (opened fd) q = tt
    by_direct_answer-Advances w (failed errno) q = elim (Bool-cases (errno == einval)) [
      | inl e ↦ rw e (open_plainly-Advances w (call_open w) (omega arith))
      | inr e ↦
          rw e (refusal-Advances w (call_open w) w.calls errno true q (omega arith) (omega arith))
    ]

    if-Advances :
        (w : Opener) (b : Bool) (x y : Attempt × Opener)
        → Advances w x
        → Advances w y
        → Advances w (if b then x else y)
    if-Advances w true x y hx hy = hx
    if-Advances w false x y hx hy = hy

    open_once-Advances : (w : Opener) → Advances w (open_once d path w)
    unfolding open_once
    open_once-Advances w =
        if-Advances w w.direct_mode
          (by_direct_answer d path (call_open w) (d.open_file w.calls path true))
          (open_plainly d path w) (by_direct_answer-Advances w (d.open_file w.calls path true) refl)
          (open_plainly-Advances w w (omega arith))

    module _ (recursive : Bool) (i : Item) where
      by_type-ne-waits : (fd : ℕ) (st : Stat) → (by_type recursive i fd st).0 ≢ waits
      unfolding by_type by_mode
      by_type-ne-waits fd st = ground arith

      by_stat-ne-waits : (fd : ℕ) (o : Option Stat) → (by_stat recursive i fd o).0 ≢ waits
      unfolding by_stat
      by_stat-ne-waits fd none = λ e. cc
      by_stat-ne-waits fd (some st) = by_type-ne-waits fd st

      after_round-ne-waits :
          (w : Opener) (a : Attempt × Opener) (again : Opener → Handled)
          → Advances w a
          → ((v : Opener) → suc w.calls ≤ v.calls → w.calls < last → (again v).verdict ≢ waits)
          → (after_round d recursive i again a).verdict ≢ waits
      unfolding Advances after_round
      after_round-ne-waits w (got fd, v) again h k = by_stat-ne-waits fd (d.fstat v.calls fd)
      after_round-ne-waits w (gives_up errno, v) again h k = λ e. cc
      after_round-ne-waits w (tries_again, v) again (x, y) k = k v x y

      open_loop-ne-waits :
          (n : ℕ) (w : Opener)
          → last ≤ w.calls + n
          → (open_loop d recursive i path (suc n) w).verdict ≢ waits
      unfolding open_loop
      open_loop-ne-waits zero w h =
          after_round-ne-waits w (open_once d path w) (open_loop d recursive i path zero)
            (open_once-Advances w) (λ v x y. absurd (omega (arith, h, y)))
      open_loop-ne-waits (suc n) w h =
          after_round-ne-waits w (open_once d path w) (open_loop d recursive i path (suc n))
            (open_once-Advances w) (λ v x y. open_loop-ne-waits n v (omega (arith, h, x)))

-- If the system answers EMFILE to no call of `open` from the one with the number `last` on, then a
-- worker that has made `w.calls` calls is done with any item after at most `n + 1` rounds, where
-- `w.calls + n` is at least `last`: the item is ignored, entered or announced, or the worker ends.
pub handle-ne-waits :
    (d : Disk) (recursive : Bool) (last n : ℕ) (i : Item) (w : Opener)
    → ((m : ℕ) (path : Text) (direct : Bool) → d.open_file m path direct ≡ failed emfile → m < last)
    → last ≤ w.calls + n
    → (handle d recursive (suc n) i w).verdict ≢ waits
unfolding handle
handle-ne-waits d recursive last n i w patient h =
    elim (Bool-cases (text_eq (path_of d i) [] || not (path_starts_with (path_of d i) i.prefix))) [
      | inl q ↦ rw q (λ e. not_waits e)
      | inr q ↦ rw q (open_loop-ne-waits d last patient (path_of d i) recursive i n w h)
    ]
  where
    not_waits : ignored ≡ waits → ⊥
    not_waits e = cc
