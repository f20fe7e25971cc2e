-- ===== src/Sender/Walk/Worth.antt =====
-- How many files of each kind a list of items is worth.
use escp.Base.{one_if, ℕ, ◌+◌, ◌≡◌, refl, Bool, List, [], ◌∷◌, ◌++◌, Text, arith}
use escp.Sender.Batch.{Stat}
use escp.Sender.Files.{Disk, Item}
use escp.Sender.Walk.Found.{Tree, Yields, YieldsAll, no_items, an_item}

-- How many of the files pass the test.
unfoldable pub tally : (Text × Stat → Bool) → List (Text × Stat) → ℕ
tally P [] = 0
tally P (f ∷ fs) = one_if (P f) + tally P fs

pub tally-append :
    (P : Text × Stat → Bool) (fs gs : List (Text × Stat))
    → tally P (fs ++ gs) ≡ tally P fs + tally P gs
unfolding tally
tally-append P [] gs = omega arith
tally-append P (f ∷ fs) gs = omega (arith, tally-append P fs gs)

abbrev pub Count : Type 0
Count = (Text × Stat → Bool) → ℕ

module _ (d : Disk) (t : Tree) (recursive : Bool) where
  pub record Worth (is : List Item) (m : Count) : Type 0 where
    pub found : List (Text × Stat)
    pub yields : YieldsAll d t recursive is found
    pub counted : (P : Text × Stat → Bool) → tally P found ≡ m P

  pub record Halves (is js : List Item) (m : Count) : Type 0 where
    pub left : Count
    pub right : Count
    pub of_left : Worth is left
    pub of_right : Worth js right
    pub together : (P : Text × Stat → Bool) → m P ≡ left P + right P

  pub Worth-none : Worth [] (λ P. 0)
  unfolding tally
  Worth-none = record { found = []; yields = no_items; counted = λ P. refl }

  pub Worth-cons :
      (i : Item) (is : List Item) (fs : List (Text × Stat)) (m : Count)
      → Yields d t recursive i fs
      → Worth is m
      → Worth (i ∷ is) (λ P. tally P fs + m P)
  Worth-cons i is fs m y w = record {
    found = fs ++ w.found;
    yields = an_item i is fs w.found y w.yields;
    counted = λ P. omega (arith, tally-append P fs w.found, w.counted P);
  }

  YieldsAll-nil :
      (P : Text × Stat → Bool) (fs : List (Text × Stat))
      → YieldsAll d t recursive [] fs
      → tally P fs ≡ 0
  unfolding tally
  YieldsAll-nil P _ no_items = refl

  pub Worth-nil : (P : Text × Stat → Bool) (m : Count) → Worth [] m → m P ≡ 0
  Worth-nil P m w = omega (arith, w.counted P, YieldsAll-nil P w.found w.yields)

  -- The first item, with what it yields, and the others.
  pub record First (i : Item) (is : List Item) (m : Count) : Type 0 where
    pub first : List (Text × Stat)
    pub rest : Count
    pub of_first : Yields d t recursive i first
    pub of_rest : Worth is rest
    pub together : (P : Text × Stat → Bool) → m P ≡ tally P first + rest P

  YieldsAll-First :
      (i : Item) (is : List Item) (fs : List (Text × Stat)) (m : Count)
      → YieldsAll d t recursive (i ∷ is) fs
      → ((P : Text × Stat → Bool) → tally P fs ≡ m P)
      → First i is m
  YieldsAll-First i is _ m (an_item _ _ fs gs y ys) c = record {
    first = fs;
    rest = λ P. tally P gs;
    of_first = y;
    of_rest = record { found = gs; yields = ys; counted = λ P. refl };
    together = λ P. omega (arith, tally-append P fs gs, c P);
  }

  Worth-First : (i : Item) (is : List Item) (m : Count) → Worth (i ∷ is) m → First i is m
  Worth-First i is m w = YieldsAll-First i is w.found m w.yields w.counted

  pub Worth-Halves : (is js : List Item) (m : Count) → Worth (is ++ js) m → Halves is js m
  Worth-Halves [] js m w = record {
    left = λ P. 0;
    right = m;
    of_left = Worth-none;
    of_right = w;
    together = λ P. omega arith;
  }
  Worth-Halves (i ∷ is) js m w =
      let f = Worth-First i (is ++ js) m w in
      let h = Worth-Halves is js f.rest f.of_rest in
      record {
        left = λ P. tally P f.first + h.left P;
        right = h.right;
        of_left = Worth-cons i is f.first h.left f.of_first h.of_left;
        of_right = h.of_right;
        together = λ P. omega (arith, f.together P, h.together P);
      }

  -- The same items are worth as many by another way of counting.
  pub Worth-recount :
      (is : List Item) (m n : Count)
      → Worth is m
      → ((P : Text × Stat → Bool) → m P ≡ n P)
      → Worth is n
  Worth-recount is m n w q = record {
    found = w.found;
    yields = w.yields;
    counted = λ P. omega (arith, w.counted P, q P);
  }

  YieldsAll-append :
      (is js : List Item) (fs : List (Text × Stat)) (n : Count)
      → YieldsAll d t recursive is fs
      → Worth js n
      → Worth (is ++ js) (λ P. tally P fs + n P)
  unfolding tally
  YieldsAll-append _ js _ n no_items v =
      Worth-recount js n (λ P. tally P [] + n P) v (λ P. omega arith)
  YieldsAll-append _ js _ n (an_item i is fs gs y ys) v =
      Worth-recount (i ∷ (is ++ js)) (λ P. tally P fs + (tally P gs + n P))
        (λ P. tally P (fs ++ gs) + n P)
        (Worth-cons i (is ++ js) fs (λ P. tally P gs + n P) y (YieldsAll-append is js gs n ys v))
        (λ P. omega (arith, tally-append P fs gs))

  pub Worth-append :
      (is js : List Item) (m n : Count)
      → Worth is m
      → Worth js n
      → Worth (is ++ js) (λ P. m P + n P)
  Worth-append is js m n w v =
      Worth-recount (is ++ js) (λ P. tally P w.found + n P) (λ P. m P + n P)
        (YieldsAll-append is js w.found n w.yields v) (λ P. omega (arith, w.counted P))

  -- A block put back in the middle.
  pub Worth-insert :
      (a k b : List Item) (m n : Count)
      → Worth k n
      → Worth (a ++ b) m
      → Worth (a ++ (k ++ b)) (λ P. n P + m P)
  Worth-insert a k b m n v w =
      let h = Worth-Halves a b m w in
      Worth-recount (a ++ (k ++ b)) (λ P. h.left P + (n P + h.right P)) (λ P. n P + m P)
        (Worth-append a (k ++ b) h.left (λ P. n P + h.right P) h.of_left
          (Worth-append k b n h.right v h.of_right))
        (λ P. omega (arith, h.together P))

  pub Worth-one :
      (a b : List Item) (i : Item) (fs : List (Text × Stat)) (m : Count)
      → Yields d t recursive i fs
      → Worth (a ++ b) m
      → Worth (a ++ i ∷ b) (λ P. tally P fs + m P)
  Worth-one a b i fs m y w =
      Worth-recount (a ++ i ∷ b) (λ P. (tally P fs + 0) + m P) (λ P. tally P fs + m P)
        (Worth-insert a (i ∷ []) b m (λ P. tally P fs + 0)
          (Worth-cons i [] fs (λ P. 0) y Worth-none) w)
        (λ P. omega arith)
