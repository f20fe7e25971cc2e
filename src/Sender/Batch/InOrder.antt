-- ===== src/Sender/Batch/InOrder.antt =====
-- Files are announced in the order of their numbers, none twice and none left out.
use mathlib.Core.List.{Perm}
use mathlib.Core.List.Perm
use escp.Base.{
  ℕ, zero, suc, ◌+◌, ◌<◌, ◌≡◌, refl, ap, sym, ◌∙◌, Bool, true, false, List, [], ◌∷◌, ◌++◌, map,
  Option, none, some, Text, length, length-append, ltb, arith, Bool-cases, subst, inl, inr,
}
use escp.Base.Sort.{
  sort_by_key, Above, Rising, EachOnce, All-sort_by_key, Above-trans, Rising-sort_by_key,
  Rising-EachOnce, Perm-sort_by_key, length-sort_by_key,
}
use escp.Wire.FileSpec.{FileList}
use escp.Sender.Batch.{
  Entry, Batcher, Split, out_of_turn, add_ready, split_ready, send_ready, announcement, announce,
}

-- k, k + 1, ..., n numbers in all.
abbrev pub count_up : ℕ → ℕ → List ℕ
count_up k zero = []
count_up k (suc n) = k ∷ count_up (suc k) n

abbrev pub fino_of : Entry → ℕ
fino_of e = e.fino

abbrev pub numbers : List Entry → List ℕ
numbers = map fino_of

-- What the loop over a sorted queue makes of it.
pub record Cut (sent : ℕ) (es : List Entry) (r : Split) : Type 0 where
  pub next_numbers : numbers r.ready ≡ count_up (suc sent) (length r.ready)
  pub all_there : r.ready ++ r.kept ≡ es
  pub counted : r.sent ≡ sent + length r.ready
  pub gap : Above fino_of (suc r.sent) r.kept
  pub still_rising : Rising fino_of r.kept

Cut-stops :
    (sent : ℕ) (e : Entry) (es : List Entry)
    → out_of_turn sent e ≡ true
    → Above fino_of sent (e ∷ es)
    → Rising fino_of (e ∷ es)
    → Cut sent (e ∷ es) (record { ready = []; kept = e ∷ es; sent = sent })
unfolding out_of_turn
Cut-stops sent e es q (a, as') (b, r) = record {
  next_numbers = refl;
  all_there = refl;
  counted = omega arith;
  gap = (later, Above-trans fino_of (suc sent) e.fino es (omega (arith, later)) b);
  still_rising = (b, r);
}
  where
    later : suc sent < e.fino
    later = ground (arith, a)

Cut-goes_on :
    (sent : ℕ) (e : Entry) (es : List Entry) (r : Split)
    → e.fino ≡ suc sent
    → Cut (suc sent) es r
    → Cut sent (e ∷ es) (add_ready e r)
unfolding add_ready
Cut-goes_on sent e es r q c = record {
  next_numbers = rw (q, c.next_numbers) refl;
  all_there = ap (◌∷◌ e) c.all_there;
  counted = omega (arith, c.counted);
  gap = c.gap;
  still_rising = c.still_rising;
}

pub split_ready-Cut :
    (sent : ℕ) (es : List Entry)
    → Above fino_of sent es
    → Rising fino_of es
    → Cut sent es (split_ready sent es)
unfolding split_ready out_of_turn
split_ready-Cut sent [] a r = record {
  next_numbers = refl;
  all_there = refl;
  counted = omega arith;
  gap = tt;
  still_rising = tt;
}
split_ready-Cut sent (e ∷ es) (a, a') (b, r) = elim (Bool-cases (out_of_turn sent e)) [
  | inl q ↦ rw q (Cut-stops sent e es q (a, a') (b, r))
  | inr q ↦
      rw (q, positive)
        (Cut-goes_on sent e es (split_ready (sent + 1) es) (its_turn q) (
          subst (λ n. Cut (suc sent) es (split_ready n es)) (plus_one sent)
            (split_ready-Cut (suc sent) es
              (Above-trans fino_of (suc sent) e.fino es (omega arith) b) r)))
]
  where
    positive : ltb 0 e.fino ≡ true
    positive = ground (arith, a)

    its_turn : out_of_turn sent e ≡ false → e.fino ≡ suc sent
    its_turn q = ground (arith, a)

    plus_one : (n : ℕ) → suc n ≡ n + 1
    plus_one n = omega arith

-- The queue between two rounds: it is counted, has no number twice and none that was announced.
pub record IsQueue (s : Batcher) : Type 0 where
  pub counted : s.counter ≡ length s.vec
  pub once : EachOnce fino_of s.vec
  pub ahead : Above fino_of s.files_sent s.vec

-- The announcement, if there is one, is of the files in `ready`.
abbrev pub Announces : Bool → Text → Batcher → List Entry → Option FileList → Type 0
Announces preserve dest_path s ready none = ready ≡ []
Announces preserve dest_path s ready (some m) = m ≡ announcement preserve dest_path s.do_break ready

pub record Announced (preserve : Bool) (dest_path : Text) (s : Batcher)
    (r : Batcher × Option FileList) : Type 0 where
  pub ready : List Entry
  pub message : Announces preserve dest_path s ready r.1
  pub all_there : Perm (ready ++ r.0.vec) s.vec
  pub next_numbers : numbers ready ≡ count_up (suc s.files_sent) (length ready)
  pub sent : r.0.files_sent ≡ s.files_sent + length ready
  pub gap : Above fino_of (suc r.0.files_sent) r.0.vec
  pub queue : IsQueue r.0

module _ (preserve : Bool) (dest_path : Text) (s : Batcher) where
  Cut-Announced :
      (r : Split) (ready : List Entry)
      → r.ready ≡ ready
      → IsQueue s
      → Cut s.files_sent (sort_by_key fino_of s.vec) r
      → Announced preserve dest_path s (send_ready preserve dest_path s r ready)
  unfolding send_ready
  Cut-Announced r [] q w c = record {
    ready = [];
    message = refl;
    all_there =
        subst (λ l. Perm l s.vec) (sym c.all_there ∙ ap (λ l. l ++ r.kept) q)
          (Perm-sort_by_key fino_of s.vec);
    next_numbers = refl;
    sent = c.counted ∙ ap (λ l. s.files_sent + length l) q;
    gap = c.gap;
    queue = record {
      counted = omega (
        arith,
        w.counted,
        length-sort_by_key fino_of s.vec,
        ap length c.all_there,
        length-append r.ready r.kept,
        ap length q,
      );
      once = Rising-EachOnce fino_of r.kept c.still_rising;
      ahead = Above-trans fino_of r.sent (suc r.sent) r.kept (omega arith) c.gap;
    };
  }
  Cut-Announced r (e ∷ es) q w c = record {
    ready = e ∷ es;
    message = refl;
    all_there =
        subst (λ l. Perm l s.vec) (sym c.all_there ∙ ap (λ l. l ++ r.kept) q)
          (Perm-sort_by_key fino_of s.vec);
    next_numbers = subst (λ l. numbers l ≡ count_up (suc s.files_sent) (length l)) q c.next_numbers;
    sent = c.counted ∙ ap (λ l. s.files_sent + length l) q;
    gap = c.gap;
    queue = record {
      counted = omega (
        arith,
        w.counted,
        length-sort_by_key fino_of s.vec,
        ap length c.all_there,
        length-append r.ready r.kept,
        ap length q,
      );
      once = Rising-EachOnce fino_of r.kept c.still_rising;
      ahead = Above-trans fino_of r.sent (suc r.sent) r.kept (omega arith) c.gap;
    };
  }

  pub nothing : (es : List Entry) → length es ≡ 0 → es ≡ []
  nothing [] q = refl
  nothing (e ∷ es) q = absurd (omega arith)

  -- If the queue is counted, has no number twice and none that was announced, a round announces the
  -- files numbered from `files_sent` + 1 on, in order; those and the queue after it are the queue
  -- before it; every number that stays is beyond a gap; and the queue is as before the round.
  pub announce-Announced :
      IsQueue s → Announced preserve dest_path s (announce preserve dest_path s)
  unfolding announce
  announce-Announced w = elim (Bool-cases (ltb 0 s.counter)) [
    | inl q ↦ rw q (
        Cut-Announced (split_ready s.files_sent (sort_by_key fino_of s.vec)) _ refl w (
          split_ready-Cut s.files_sent (sort_by_key fino_of s.vec)
            (All-sort_by_key fino_of (λ e. s.files_sent < e.fino) s.vec w.ahead)
            (Rising-sort_by_key fino_of s.vec w.once)))
    | inr q ↦ rw q (idle (nothing s.vec (ground (arith, w.counted))))
  ]
    where
      idle : s.vec ≡ [] → Announced preserve dest_path s (s, none)
      idle e = record {
        ready = [];
        message = refl;
        all_there = Perm.refl s.vec;
        next_numbers = refl;
        sent = omega arith;
        gap = subst (λ l. Above fino_of (suc s.files_sent) l) (sym e) tt;
        queue = w;
      }
