-- ===== src/Sender/Walk/Numbers.antt =====
-- The numbers of the files, and the count of the directories, in every order of the workers' steps.
use escp.Base.{
  one_if, ℕ, suc, ◌+◌, ◌≤◌, ◌≡◌, ◌≢◌, refl, ap, Bool, false, ◌&&◌, List, [], ◌∷◌, ◌++◌, map, Text,
  length, length-append, All, ltb, leb, ◌==◌, arith, inl, inr, Bool-cases, true-ne-false,
}
use escp.Base.Sort.{Above}
use escp.Receiver.Opening.{emfile}
use escp.Sender.Batch.{Entry, entry, Batcher, collect}
use escp.Sender.Batch.InOrder.{fino_of, IsQueue}
use escp.Sender.Batch.Numbering.{times, times-append, times-none, times-EachOnce}
use escp.Sender.Batch.Gather.{entries, collect-IsQueue}
use escp.Sender.Files.{
  Disk, Listing, listing, refused, Item, Verdict, ignored, enters, announces, ends_worker, waits,
  handle,
}
use escp.Sender.Walk.{
  Walk, settle, enter, Step, handles, sends, enters_dir, reads, closes_dir, Steps, none_left,
  then_step, start,
}

-- Each number from 1 to `GLOBAL_FINO` is that of one entry, sent or not; no other number is.
-- `cleanup` is ahead of `tail` by the directories that wait or are being read.
pub record IsNumbered (s : Walk) : Type 0 where
  pub each_once : (k : ℕ) → times k s.numbered + times k s.sent ≡ one_if (ltb 0 k && leb k s.fino)
  pub counted : length s.numbered + length s.sent ≡ s.fino
  pub directories : s.exited ≡ false → s.cleanup ≡ s.tail + length s.dirs + length s.readers

next_number :
    (k n : ℕ)
    → one_if (ltb 0 k && leb k (suc n)) ≡ one_if (suc n == k) + one_if (ltb 0 k && leb k n)
next_number k n = ground arith

IsNumbered-settle :
    (s : Walk) (v : Verdict) (is : List Item)
    → IsNumbered s
    → IsNumbered (settle v (record s { files = is }))
unfolding settle times
IsNumbered-settle s ignored is h = record {
  each_once = h.each_once;
  counted = h.counted;
  directories = h.directories;
}
IsNumbered-settle s (enters p f) is h = record {
  each_once = h.each_once;
  counted = h.counted;
  directories = λ x. omega (arith, h.directories x, length-append s.dirs ((p, f) ∷ []));
}
IsNumbered-settle s (announces name st fd) is h = record {
  each_once =
      λ k. omega (arith, h.each_once k, times-append k s.numbered (e ∷ []), next_number k s.fino);
  counted = omega (arith, h.counted, length-append s.numbered (e ∷ []));
  directories = h.directories;
}
  where
    e : Entry
    e = record { fi = name; fino = suc s.fino; st = st }
IsNumbered-settle s ends_worker is h = record {
  each_once = h.each_once;
  counted = h.counted;
  directories = h.directories;
}
IsNumbered-settle s waits is h = record {
  each_once = h.each_once;
  counted = h.counted;
  directories = h.directories;
}

-- A directory, taken out of its place, is put where the listing says.
IsNumbered-enter :
    (s : Walk) (a b : List (Text × Text)) (x : Text × Text) (l : Listing)
    → s.dirs ≡ a ++ x ∷ b
    → IsNumbered s
    → IsNumbered (enter x l (record s { dirs = a ++ b }))
unfolding enter
IsNumbered-enter s a b (p, f) (listing es) q h = record {
  each_once = h.each_once;
  counted = h.counted;
  directories = λ x.
      omega (arith, h.directories x, ap length q, length-append a ((p, f) ∷ b), length-append a b);
}
IsNumbered-enter s a b (p, f) (refused errno) q h = elim (Bool-cases (errno == emfile)) [
  | inl e ↦ rw e (record {
    each_once = h.each_once;
    counted = h.counted;
    directories = λ x.
        omega
          (arith, h.directories x, ap length q, length-append a ((p, f) ∷ b), length-append a b);
  })
  | inr e ↦ rw e (record {
    each_once = h.each_once;
    counted = h.counted;
    directories = λ x. absurd (true-ne-false x);
  })
]

module _ (d : Disk) (recursive : Bool) where
  IsNumbered-Step : {s u : Walk} → Step d recursive s u → IsNumbered s → IsNumbered u
  unfolding times
  IsNumbered-Step (handles s a b i w n q nw) h =
      IsNumbered-settle s ((handle d recursive n i w).verdict) (a ++ b) h
  IsNumbered-Step (sends s a b e q) h = record {
    each_once = λ k. omega (
      arith,
      h.each_once k,
      ap (times k) q,
      times-append k a (e ∷ b),
      times-append k a b,
      times-append k s.sent (e ∷ []),
    );
    counted = omega (
      arith,
      h.counted,
      ap length q,
      length-append a (e ∷ b),
      length-append a b,
      length-append s.sent (e ∷ []),
    );
    directories = h.directories;
  }
  IsNumbered-Step (enters_dir s a b x n q) h = IsNumbered-enter s a b x _ q h
  IsNumbered-Step (reads s a b r e es q l) h = record {
    each_once = h.each_once;
    counted = h.counted;
    directories = λ x. omega (
      arith,
      h.directories x,
      ap length q,
      length-append a (r ∷ b),
      length-append a (record r { left = es } ∷ b),
    );
  }
  IsNumbered-Step (closes_dir s a b r q l) h = record {
    each_once = h.each_once;
    counted = h.counted;
    directories = λ x.
        omega (arith, h.directories x, ap length q, length-append a (r ∷ b), length-append a b);
  }

  IsNumbered-Steps : {s u : Walk} → Steps d recursive s u → IsNumbered s → IsNumbered u
  IsNumbered-Steps (none_left _) h = h
  IsNumbered-Steps (then_step x xs) h = IsNumbered-Steps xs (IsNumbered-Step x h)

  -- At every point of a walk, each number from 1 to the last one given is that of exactly one entry,
  -- numbered or sent, and no other number is; there are as many entries as numbers; and unless a
  -- directory worker has ended the process, the counter of directories found is ahead of the counter
  -- of directories finished by those that wait or are being read.
  pub Steps-IsNumbered : (is : List Item) (s : Walk) → Steps d recursive (start is) s → IsNumbered s
  unfolding start times
  Steps-IsNumbered is s xs =
      IsNumbered-Steps xs
        (record { each_once = λ k. none k; counted = refl; directories = λ x. refl })
    where
      none : (k : ℕ) → 0 ≡ one_if (ltb 0 k && leb k 0)
      none k = ground arith

Above-zero : (es : List Entry) → All (λ e. fino_of e ≢ 0) es → Above fino_of 0 es
Above-zero [] h = tt
Above-zero (e ∷ es) (x, h) = (omega (arith, x), Above-zero es h)

entries-map : (es : List Entry) → entries (map entry es) ≡ es
entries-map [] = refl
entries-map (e ∷ es) = ap (λ x. e ∷ x) (entries-map es)

-- At every point of a walk, the messages sent so far, gathered by a sender with an empty queue that
-- has announced nothing, leave it a well-formed queue.
Steps-IsQueue :
    (d : Disk) (recursive : Bool) (is : List Item) (s : Walk) (b : Batcher)
    → Steps d recursive (start is) s
    → b.vec ≡ []
    → b.counter ≡ 0
    → b.files_sent ≡ 0
    → IsQueue ((collect (map entry s.sent) b).0)
Steps-IsQueue d recursive is s b xs v c f =
    let h = Steps-IsNumbered d recursive is s xs in
    collect-IsQueue (map entry s.sent) b
      (record { counted = rw (v, c) refl; once = rw v tt; ahead = rw v tt })
      (rw (v, entries-map s.sent) (times-EachOnce s.sent (λ k. at_most k (h.each_once k))))
      (rw (v, f, entries-map s.sent)
        (Above-zero s.sent (times-none 0 s.sent (omega (arith, h.each_once 0)))))
  where
    at_most :
        (k : ℕ)
        → times k s.numbered + times k s.sent ≡ one_if (ltb 0 k && leb k s.fino)
        → times k s.sent ≤ 1
    at_most k q = ground (arith, q)
