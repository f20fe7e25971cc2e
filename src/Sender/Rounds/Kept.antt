-- ===== src/Sender/Rounds/Kept.antt =====
-- What the rounds keep: which files were announced, which wait, and which are still in the channel.
use mathlib.Core.List.{Perm}
use escp.Base.{
  one_if, ℕ, suc, ◌+◌, ◌≤◌, ◌<◌, ◌≡◌, refl, ap, sym, ◌∙◌, subst, Bool, ◌&&◌, List, [], ◌∷◌, ◌++◌,
  map, append_assoc, append-nil, length, length-append, All, ltb, leb, arith,
}
use escp.Base.Totals.{Perm-length}
use escp.Wire.FileSpec.{File, FileList}
use escp.Sender.Batch.{Entry, Received, Batcher, file_args}
use escp.Sender.Batch.InOrder.{numbers, count_up, IsQueue}
use escp.Sender.Batch.Gather.{entries, Gathered, All-front, EachOnce-front}
use escp.Sender.Batch.Numbering.{
  times, times-append, Perm-times, times-count_up, times-EachOnce, times-Above, times-Below,
}
use escp.Sender.Finish.Confirmed.{or_none}
use escp.Sender.Rounds.{Round}

-- The numbers are 1, 2, ..., as many as there are files, in any order.
abbrev pub IsWhole : List Entry → Type 0
IsWhole es = (k : ℕ) → times k es ≡ one_if (ltb 0 k && leb k (length es))

-- The files in the messages.
abbrev pub listed : List FileList → List File
listed [] = []
listed (m ∷ ms) = or_none m.files ++ listed ms

pub listed-append :
    (ms : List FileList) (m : FileList) → listed (ms ++ m ∷ []) ≡ listed ms ++ or_none m.files
listed-append [] m = append-nil (or_none m.files)
listed-append (n ∷ ms) m =
    ap (λ l. or_none n.files ++ l) (listed-append ms m)
    ∙ sym (append_assoc (or_none n.files) (listed ms) (or_none m.files))

pub map-append_lem :
    (f : Entry → File) (es fs : List Entry) → map f (es ++ fs) ≡ map f es ++ map f fs
map-append_lem f [] fs = refl
map-append_lem f (e ∷ es) fs = ap (λ l. f e ∷ l) (map-append_lem f es fs)

pub numbers-append :
    (n : ℕ) (es fs : List Entry)
    → numbers es ≡ count_up n (length es)
    → numbers fs ≡ count_up (n + length es) (length fs)
    → numbers (es ++ fs) ≡ count_up n (length (es ++ fs))
numbers-append n [] fs p q = subst (λ k. numbers fs ≡ count_up k (length fs)) (no_more n) q
  where
    no_more : (n : ℕ) → n + 0 ≡ n
    no_more n = omega arith
numbers-append n (e ∷ es) fs p q = cons_both (cc) (
    numbers-append (suc n) es fs (cc)
      (subst (λ k. numbers fs ≡ count_up k (length fs)) (shift n (length es)) q))
  where
    shift : (n l : ℕ) → n + suc l ≡ suc n + l
    shift n l = omega arith

    cons_both : {a b : ℕ} {x y : List ℕ} → a ≡ b → x ≡ y → a ∷ x ≡ b ∷ y
    cons_both p q = cc

-- Of all files, those announced, in the order of their numbers, and the others.
pub record Kept (preserve : Bool) (all : List Entry) (r : Round) : Type 0 where
  pub announced : List Entry
  pub all_there : Perm (announced ++ (r.batch.vec ++ entries r.channel)) all
  pub in_order : numbers announced ≡ count_up 1 (length announced)
  pub sent : r.batch.files_sent ≡ length announced
  pub counted : r.batch.counter ≡ length r.batch.vec
  pub totalled : r.batch.files_total ≡ length announced + length r.batch.vec
  pub messages : listed r.out ≡ map (file_args preserve) announced

module _ (preserve : Bool) (all : List Entry) (whole : IsWhole all) where
  Kept-length :
      (r : Round)
      → (h : Kept preserve all r)
      → length all ≡ r.batch.files_sent + length (r.batch.vec ++ entries r.channel)
  Kept-length r h = omega (
    arith,
    Perm-length h.all_there,
    h.sent,
    length-append h.announced (r.batch.vec ++ entries r.channel),
  )

  Kept-times :
      (r : Round) (h : Kept preserve all r) (k : ℕ)
      → times k (r.batch.vec ++ entries r.channel)
        ≡ one_if (ltb r.batch.files_sent k && leb k (length all))
  Kept-times r h k =
      split (length h.announced) (length all) r.batch.files_sent
        (length (r.batch.vec ++ entries r.channel))
        (Perm-times k (h.announced ++ (r.batch.vec ++ entries r.channel)) all h.all_there)
        (times-append k h.announced (r.batch.vec ++ entries r.channel))
        (times-count_up k 0 h.announced h.in_order) (whole k) h.sent (Kept-length r h)
    where
      split :
          {a b c w : ℕ} (l m n y : ℕ)
          → a ≡ b
          → a ≡ c + w
          → c ≡ one_if (ltb 0 k && leb k (0 + l))
          → b ≡ one_if (ltb 0 k && leb k m)
          → n ≡ l
          → m ≡ n + y
          → w ≡ one_if (ltb n k && leb k m)
      split l m n y p q s t u v = ground (arith, p, q, s, t, u, v)

  pub Kept-IsQueue : (r : Round) → Kept preserve all r → IsQueue r.batch
  Kept-IsQueue r h = record {
    counted = h.counted;
    once =
        EachOnce-front r.batch.vec (entries r.channel)
          (times-EachOnce (r.batch.vec ++ entries r.channel) (λ k. at_most k (Kept-times r h k)));
    ahead =
        All-front (λ e. r.batch.files_sent < e.fino) r.batch.vec (entries r.channel)
          (times-Above r.batch.files_sent (length all) (r.batch.vec ++ entries r.channel)
            (λ k. omega (arith, Kept-times r h k)));
  }
    where
      at_most :
          (k : ℕ) {w : ℕ} → w ≡ one_if (ltb r.batch.files_sent k && leb k (length all)) → w ≤ 1
      at_most k q = ground (arith, q)

  -- With nothing left in the channel, the numbers fill the room behind those announced.
  pub Kept-fills :
      (r : Round)
      → Kept preserve all r
      → r.channel ≡ []
      → All (λ e. e.fino ≤ r.batch.files_sent + length r.batch.vec) r.batch.vec
  Kept-fills r h q =
      subst (λ n. All (λ e. e.fino ≤ n) r.batch.vec)
        (Kept-length r h
          ∙ ap (λ c. r.batch.files_sent + length (r.batch.vec ++ entries c)) q
          ∙ ap (λ l. r.batch.files_sent + length l) (append-nil r.batch.vec))
        (All-front (λ e. e.fino ≤ length all) r.batch.vec (entries r.channel)
          (times-Below r.batch.files_sent (length all) (r.batch.vec ++ entries r.channel)
            (λ k. omega (arith, Kept-times r h k))))

  pub Kept-collect :
      (r : Round) (c : Batcher × List Received × Bool)
      → Gathered r.channel r.batch c
      → Kept preserve all r
      → Kept preserve all (record r { batch = c.0; channel = c.1 })
  Kept-collect r c g h = record {
    announced = h.announced;
    all_there = subst (λ l. Perm (h.announced ++ l) all) (sym g.in_order) h.all_there;
    in_order = h.in_order;
    sent = g.unsent ∙ h.sent;
    counted = omega (arith, g.counted, h.counted);
    totalled = omega (arith, g.totalled, h.totalled);
    messages = h.messages;
  }
