-- ===== src/Sender/Check/Truth.antt =====
-- The comparison tells the truth about the checksums.
use escp.Base.{
  ℕ, suc, ◌+◌, ◌<◌, ◌^◌, ◌≡◌, ◌≢◌, refl, ap, ◌∙◌, ◌⊎◌, inl, inr, true, false, List, [], ◌∷◌, Option,
  none, some, Text, insert, remove, All, ◌==◌, arith, length, Bool-cases,
}
use escp.Base.Int.{ℤ, pos, negsuc, ltb_ℤ, eqb_ℤ, as_u32}
use escp.Wire.FileSpec.{File}
use escp.Sender.Check.{
  Checksums, Arrival, got, timed_out, closed, Awaited, ready, lost, pending, note, receive,
  known_or, await, Outcome, checked, mismatch, disconnected, exits, panics, waits, receiver_error,
  compare_crc, is_empty_file, check_entry, check_files,
}

-- Some element of the list has the property.
pub data Any {A : Type 0} (P : A → Type 0) : List A → Type 0 where
  here : {x : A} {xs : List A} → P x → Any P (x ∷ xs)
  there : {x : A} {xs : List A} → Any P xs → Any P (x ∷ xs)

-- `crc_of` gives the checksum of the bytes that were sent for each file.
module _ (crc_of : ℕ → ℕ) where
  abbrev pub HonestEntry : ℕ → Option (ℤ × Text) → Type 0
  HonestEntry k none = Unit
  HonestEntry k (some (pos c, name)) = c ≡ crc_of k
  HonestEntry k (some (negsuc n, name)) = n ≡ 0

  abbrev pub HonestMap : Checksums → Type 0
  HonestMap hm = (k : ℕ) → HonestEntry k (hm k)

  abbrev pub HonestArrival : Arrival → Type 0
  HonestArrival (got k c) = c ≡ crc_of k
  HonestArrival timed_out = Unit
  HonestArrival closed = Unit

  -- The receiver's checksum is that of the bytes sent, or the entry stands for an empty file.
  abbrev pub Agrees : File → Type 0
  Agrees e = (is_empty_file e ≡ true) ⊎ (e.crc ≡ crc_of e.fino)

  abbrev pub Differs : ℕ → File → Type 0
  Differs k e = (e.fino ≡ k) × (e.crc ≢ crc_of k)

  abbrev pub HasError : File → Type 0
  HasError e = ltb_ℤ (pos 0) e.errno ≡ true

  abbrev pub Verdict : List File → ℕ → Outcome → Type 0
  Verdict es ok (checked hm n arrivals) =
      All Agrees es × (n ≡ ok + length es) × HonestMap hm × All HonestArrival arrivals
  Verdict es ok (mismatch k) = Any (Differs k) es
  Verdict es ok exits = Any HasError es
  Verdict es ok panics = Any HasError es
  Verdict es ok disconnected = Unit
  Verdict es ok waits = Unit

  abbrev pub AwaitedTruth : ℕ → Awaited → Type 0
  AwaitedTruth k (ready c hm arrivals) =
      (c ≡ pos (crc_of k)) × HonestMap hm × All HonestArrival arrivals
  AwaitedTruth k lost = Unit
  AwaitedTruth k pending = Unit

  HonestMap-insert :
      (k c : ℕ) (name : Text) (hm : Checksums)
      → c ≡ crc_of k
      → HonestMap hm
      → HonestMap (insert k (pos c, name) hm)
  HonestMap-insert k c name hm e h j = elim (Bool-cases (k == j)) [
    | inl q ↦ rw q (e ∙ ap crc_of (ground arith))
    | inr q ↦ rw q (h j)
  ]

  pub HonestMap-remove : (k : ℕ) (hm : Checksums) → HonestMap hm → HonestMap (remove k hm)
  HonestMap-remove k hm h j = elim (Bool-cases (k == j)) [ inl q ↦ rw q tt | inr q ↦ rw q (h j) ]

  HonestMap-note :
      (k c : ℕ) (hm : Checksums) (o : Option (ℤ × Text))
      → c ≡ crc_of k
      → HonestMap hm
      → HonestMap (note k c hm o)
  unfolding note
  HonestMap-note k c hm none e h = HonestMap-insert k c [] hm e h
  HonestMap-note k c hm (some (d, name)) e h = HonestMap-insert k c name hm e h

  receive-truth :
      (k : ℕ) (again : Checksums → Awaited) (rest : List Arrival) (hm : Checksums) (a : Arrival)
      → ((hm' : Checksums) → HonestMap hm' → AwaitedTruth k (again hm'))
      → HonestMap hm
      → HonestArrival a
      → All HonestArrival rest
      → AwaitedTruth k (receive k again rest hm a)
  unfolding receive
  receive-truth k again rest hm (got fino c) ih h ha hr = elim (Bool-cases (k == fino)) [
    | inl q ↦
        rw q (ap pos (ha ∙ ap crc_of (ground arith)), HonestMap-note fino c hm (hm fino) ha h, hr)
    | inr q ↦ rw q (ih (note fino c hm (hm fino)) (HonestMap-note fino c hm (hm fino) ha h))
  ]
  receive-truth k again rest hm timed_out ih h ha hr = ih hm h
  receive-truth k again rest hm closed ih h ha hr = tt

  known_or-truth :
      (k : ℕ) (other : Awaited) (hm : Checksums) (arrivals : List Arrival) (o : Option (ℤ × Text))
      → AwaitedTruth k other
      → HonestMap hm
      → All HonestArrival arrivals
      → HonestEntry k o
      → AwaitedTruth k (known_or k other hm arrivals o)
  unfolding known_or
  known_or-truth k other hm arrivals none t h ha he = t
  known_or-truth k other hm arrivals (some (pos c, name)) t h ha he =
      elim (Bool-cases (eqb_ℤ (pos c) (negsuc 0))) [
        | inl q ↦ absurd (ground arith)
        | inr q ↦ rw q (ap pos he, h, ha)
      ]
  known_or-truth k other hm arrivals (some (negsuc n, name)) t h ha he = rw he t

  pub await-truth :
      (k : ℕ) (arrivals : List Arrival) (hm : Checksums)
      → HonestMap hm
      → All HonestArrival arrivals
      → AwaitedTruth k (await k arrivals hm)
  unfolding await
  await-truth k [] hm h ha = known_or-truth k pending hm [] (hm k) tt h tt (h k)
  await-truth k (a ∷ arrivals) hm h (ha, hr) =
      known_or-truth k (receive k (await k arrivals) arrivals hm a) hm (a ∷ arrivals) (hm k)
        (receive-truth k (await k arrivals) arrivals hm a
          (λ hm' h'. await-truth k arrivals hm' h' hr) h ha hr)
        h (ha, hr) (h k)

  Verdict-cons :
      (e : File) (es : List File) (ok : ℕ) (o : Outcome)
      → Agrees e
      → Verdict es (suc ok) o
      → Verdict (e ∷ es) ok o
  Verdict-cons e es ok (checked hm n arrivals) h (a, b, c, d) = ((h, a), omega (arith, b), c, d)
  Verdict-cons e es ok (mismatch k) h v = there v
  Verdict-cons e es ok exits h v = there v
  Verdict-cons e es ok panics h v = there v
  Verdict-cons e es ok disconnected h v = tt
  Verdict-cons e es ok waits h v = tt

  module _ (small : (k : ℕ) → crc_of k < 2 ^ 32) where
    compare_crc-Verdict :
        (next : Checksums → ℕ → List Arrival → Outcome) (e : File) (es : List File) (ok : ℕ)
        (a : Awaited)
        → ((hm : Checksums) (arrivals : List Arrival)
            → HonestMap hm
            → All HonestArrival arrivals
            → Verdict es (suc ok) (next hm (suc ok) arrivals))
        → AwaitedTruth e.fino a
        → Verdict (e ∷ es) ok (compare_crc next e ok a)
    unfolding compare_crc
    compare_crc-Verdict next e es ok (ready c hm arrivals) ih (q, h, ha) =
        elim (Bool-cases (as_u32 c == e.crc)) [
          | inl p ↦ rw p (
              Verdict-cons e es ok (next (remove e.fino hm) (suc ok) arrivals) (inr (truth p))
                (ih (remove e.fino hm) arrivals (HonestMap-remove e.fino hm h) ha))
          | inr p ↦ rw p (here (refl, untruth p))
        ]
      where
        as_sent : as_u32 c ≡ crc_of e.fino
        as_sent = ap as_u32 q ∙ omega (arith, small e.fino)

        truth : (as_u32 c == e.crc) ≡ true → e.crc ≡ crc_of e.fino
        truth p = ground (arith, as_sent)

        untruth : (as_u32 c == e.crc) ≡ false → e.crc ≢ crc_of e.fino
        untruth p r = ground (arith, as_sent)
    compare_crc-Verdict next e es ok lost ih t = tt
    compare_crc-Verdict next e es ok pending ih t = tt

    receiver_error-Verdict :
        (e : File) (es : List File) (ok : ℕ) (errmsg name : Option Text)
        → HasError e
        → Verdict (e ∷ es) ok (receiver_error errmsg name)
    unfolding receiver_error
    receiver_error-Verdict e es ok none name h = here h
    receiver_error-Verdict e es ok (some m) none h = here h
    receiver_error-Verdict e es ok (some m) (some n) h = here h

    -- What each outcome says, when the sender's checksums, those in the map and those that arrive, are
    -- right. All compared: every checksum of the receiver is that of the bytes sent, and each file is
    -- counted. A mismatch: the file's checksum is another one. An end of the process: the receiver
    -- reported an error.
    pub check_files-Verdict :
        (es : List File) (hm : Checksums) (ok : ℕ) (arrivals : List Arrival)
        → HonestMap hm
        → All HonestArrival arrivals
        → Verdict es ok (check_files es hm ok arrivals)
    unfolding check_files check_entry
    check_files-Verdict [] hm ok arrivals h ha = (tt, omega arith, h, ha)
    check_files-Verdict (e ∷ es) hm ok arrivals h ha = elim (Bool-cases (ltb_ℤ (pos 0) e.errno)) [
      | inl p ↦ rw p (receiver_error-Verdict e es ok e.errmsg e.name p)
      | inr p ↦ rw p (elim (Bool-cases (is_empty_file e)) [
        | inl p' ↦
            rw p'
              (Verdict-cons e es ok _ (inl p') (check_files-Verdict es hm (suc ok) arrivals h ha))
        | inr p' ↦ rw p' (
            compare_crc-Verdict (check_files es) e es ok (await e.fino arrivals hm)
              (λ hm' rest h' ha'. check_files-Verdict es hm' (suc ok) rest h' ha')
              (await-truth e.fino arrivals hm h ha))
      ])
    ]
