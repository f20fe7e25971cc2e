-- ===== src/Sender/Check/Confirms.antt =====
-- A transfer without errors is confirmed: the comparison neither waits forever nor fails.
use escp.Base.{
  ℕ, suc, ◌<◌, ◌^◌, ◌≡◌, ◌≢◌, ap, sym, ◌∙◌, ◌⊎◌, inl, inr, true, false, List, [], ◌∷◌, Option, none,
  some, Text, remove, insert_self, All, ◌==◌, arith, Bool-cases, none-ne-some, subst, some_inj,
  true-ne-false,
}
use escp.Base.Int.{ℤ, pos, negsuc, ltb_ℤ, eqb_ℤ, as_u32}
use escp.Wire.FileSpec.{File}
use escp.Sender.Check.{
  Checksums, Arrival, got, timed_out, closed, Awaited, ready, lost, pending, note, receive,
  known_or, await, Outcome, checked, mismatch, disconnected, exits, panics, waits, compare_crc,
  is_empty_file, check_entry, check_files,
}
use escp.Sender.Check.Truth.{
  Any, here, there, HonestMap, HonestArrival, Agrees, AwaitedTruth, await-truth, HonestMap-remove,
}

abbrev pub Has : Checksums → ℕ → Type 0
Has hm j = (c : ℕ) × (name : Text) × (hm j ≡ some (pos c, name))

abbrev pub Brings : ℕ → Arrival → Type 0
Brings j (got k c) = k ≡ j
Brings j timed_out = ⊥
Brings j closed = ⊥

abbrev pub IsOpen : Arrival → Type 0
IsOpen (got k c) = Unit
IsOpen timed_out = Unit
IsOpen closed = ⊥

-- The file's checksum is in the map, or it arrives.
abbrev pub Available : Checksums → List Arrival → ℕ → Type 0
Available hm arrivals j = Has hm j ⊎ Any (Brings j) arrivals

-- The loop ends with the checksum, and those of other files stay available.
abbrev Finds : Checksums → List Arrival → ℕ → Awaited → Type 0
Finds hm arrivals k lost = ⊥
Finds hm arrivals k pending = ⊥
Finds hm arrivals k (ready c hm' rest) =
    ((j : ℕ) → Available hm arrivals j → Available hm' rest j) × All IsOpen rest

Has-note_self : (c j : ℕ) (hm : Checksums) (o : Option (ℤ × Text)) → Has (note j c hm o) j
unfolding note
Has-note_self c j hm none = (c, [], insert_self j (pos c, []) hm)
Has-note_self c j hm (some (d, name)) = (c, name, insert_self j (pos c, name) hm)

Has-note_other :
    (k c j : ℕ) (hm : Checksums) (o : Option (ℤ × Text))
    → (k == j) ≡ false
    → Has hm j
    → Has (note k c hm o) j
unfolding note
Has-note_other k c j hm none q (d, name, e) = (d, name, rw q e)
Has-note_other k c j hm (some (b, _)) q (d, name, e) = (d, name, rw q e)

Has-note :
    (k c j : ℕ) (hm : Checksums) (o : Option (ℤ × Text))
    → Has hm j ⊎ (k ≡ j)
    → Has (note k c hm o) j
Has-note k c j hm o (inr e) = rw e (Has-note_self c j hm o)
Has-note k c j hm o (inl h) = elim (Bool-cases (k == j)) [
  | inl q ↦ subst (λ i. Has (note i c hm o) j) (same q) (Has-note_self c j hm o)
  | inr q ↦ Has-note_other k c j hm o q h
]
  where
    same : (k == j) ≡ true → j ≡ k
    same q = ground arith

Available-got :
    (k c : ℕ) (hm : Checksums) (rest : List Arrival) (j : ℕ)
    → Available hm (got k c ∷ rest) j
    → Available (note k c hm (hm k)) rest j
Available-got k c hm rest j (inl h) = inl (Has-note k c j hm (hm k) (inl h))
Available-got k c hm rest j (inr (here e)) = inl (Has-note k c j hm (hm k) (inr e))
Available-got k c hm rest j (inr (there a)) = inr a

Available-timed_out :
    (hm : Checksums) (rest : List Arrival) (j : ℕ)
    → Available hm (timed_out ∷ rest) j
    → Available hm rest j
Available-timed_out hm rest j (inl h) = inl h
Available-timed_out hm rest j (inr (here x)) = absurd x
Available-timed_out hm rest j (inr (there a)) = inr a

Finds-after :
    (hm hm' : Checksums) (arrivals rest : List Arrival) (k : ℕ) (w : Awaited)
    → ((j : ℕ) → Available hm arrivals j → Available hm' rest j)
    → Finds hm' rest k w
    → Finds hm arrivals k w
Finds-after hm hm' arrivals rest k lost f h = h
Finds-after hm hm' arrivals rest k pending f h = h
Finds-after hm hm' arrivals rest k (ready c hm'' rest') f (h, o) = (λ j a. h j (f j a), o)

receive-Finds :
    (k : ℕ) (again : Checksums → Awaited) (rest : List Arrival) (hm : Checksums) (a : Arrival)
    → ((hm' : Checksums) → Available hm' rest k → Finds hm' rest k (again hm'))
    → Available hm (a ∷ rest) k
    → All IsOpen (a ∷ rest)
    → Finds hm (a ∷ rest) k (receive k again rest hm a)
unfolding receive
receive-Finds k again rest hm (got fino c) ih h (oa, o) = elim (Bool-cases (k == fino)) [
  | inl q ↦ rw q (Available-got fino c hm rest, o)
  | inr q ↦ rw q (
      Finds-after hm (note fino c hm (hm fino)) (got fino c ∷ rest) rest k _
        (Available-got fino c hm rest)
        (ih (note fino c hm (hm fino)) (Available-got fino c hm rest k h)))
]
receive-Finds k again rest hm timed_out ih h (oa, o) =
    Finds-after hm hm (timed_out ∷ rest) rest k _ (Available-timed_out hm rest)
      (ih hm (Available-timed_out hm rest k h))
receive-Finds k again rest hm closed ih h (oa, o) = absurd oa

-- Either the map has the checksum, or the loop looks at the arrivals.
known_or-Finds :
    (k : ℕ) (other : Awaited) (hm : Checksums) (arrivals : List Arrival) (o : Option (ℤ × Text))
    → Finds hm arrivals k other ⊎ ((c : ℕ) × (name : Text) × (o ≡ some (pos c, name)))
    → All IsOpen arrivals
    → Finds hm arrivals k (known_or k other hm arrivals o)
unfolding known_or
known_or-Finds k other hm arrivals none (inl t) ho = t
known_or-Finds k other hm arrivals none (inr (c, name, e)) ho = absurd (none-ne-some e)
known_or-Finds k other hm arrivals (some (z, nm)) (inl t) ho =
    elim (Bool-cases (eqb_ℤ z (negsuc 0))) [ inl q ↦ rw q t | inr q ↦ rw q ((λ j a. a), ho) ]
known_or-Finds k other hm arrivals (some (z, nm)) (inr (c, name, e)) ho =
    elim (Bool-cases (eqb_ℤ z (negsuc 0))) [
      | inl q ↦ absurd (ne c (ap (λ (p : ℤ × Text). eqb_ℤ p.0 (negsuc 0)) (sym (some_inj e)) ∙ q))
      | inr q ↦ rw q ((λ j a. a), ho)
    ]
  where
    ne : (c : ℕ) → eqb_ℤ (pos c) (negsuc 0) ≡ true → ⊥
    ne c q = ground arith

await-Finds :
    (k : ℕ) (arrivals : List Arrival) (hm : Checksums)
    → Available hm arrivals k
    → All IsOpen arrivals
    → Finds hm arrivals k (await k arrivals hm)
unfolding await
await-Finds k [] hm (inl h) ho = known_or-Finds k pending hm [] (hm k) (inr h) ho
await-Finds k [] hm (inr x) ho = elim x [ ]
await-Finds k (a ∷ arrivals) hm h ho =
    known_or-Finds k (receive k (await k arrivals) arrivals hm a) hm (a ∷ arrivals) (hm k)
      (inl (
        receive-Finds k (await k arrivals) arrivals hm a
          (λ hm' h'. await-Finds k arrivals hm' h' (ho.1)) h ho))
      ho

Available-remove :
    (k j : ℕ) (hm : Checksums) (arrivals : List Arrival)
    → j ≢ k
    → Available hm arrivals j
    → Available (remove k hm) arrivals j
Available-remove k j hm arrivals ne (inl (c, name, e)) = elim (Bool-cases (k == j)) [
  | inl q ↦ absurd (ne (ground arith))
  | inr q ↦ inl (c, name, rw q e)
]
Available-remove k j hm arrivals ne (inr a) = inr a

-- The entry reports no error, and stands for an empty file or has its checksum available.
abbrev pub IsExpected : Checksums → List Arrival → File → Type 0
IsExpected hm arrivals e =
    (ltb_ℤ (pos 0) e.errno ≡ false) × ((is_empty_file e ≡ true) ⊎ Available hm arrivals e.fino)

-- No later entry is about the same file.
abbrev pub EachOnce : List File → Type 0
EachOnce [] = Unit
EachOnce (e ∷ es) = All (λ d. d.fino ≢ e.fino) es × EachOnce es

abbrev pub Confirmed : Outcome → Type 0
Confirmed (checked hm n arrivals) = Unit
Confirmed (mismatch k) = ⊥
Confirmed disconnected = ⊥
Confirmed exits = ⊥
Confirmed panics = ⊥
Confirmed waits = ⊥

All-IsExpected :
    (k : ℕ) (hm hm' : Checksums) (arrivals rest : List Arrival) (es : List File)
    → ((j : ℕ) → Available hm arrivals j → Available hm' rest j)
    → All (λ d. d.fino ≢ k) es
    → All (IsExpected hm arrivals) es
    → All (IsExpected (remove k hm') rest) es
All-IsExpected k hm hm' arrivals rest [] f a x = tt
All-IsExpected k hm hm' arrivals rest (e ∷ es) f (ne, a) ((er, inl p), x) =
    ((er, inl p), All-IsExpected k hm hm' arrivals rest es f a x)
All-IsExpected k hm hm' arrivals rest (e ∷ es) f (ne, a) ((er, inr v), x) = (
  (er, inr (Available-remove k e.fino hm' rest ne (f e.fino v))),
  All-IsExpected k hm hm' arrivals rest es f a x,
)

module _ (crc_of : ℕ → ℕ) (small : (k : ℕ) → crc_of k < 2 ^ 32) where
  compare_crc-Confirmed :
      (next : Checksums → ℕ → List Arrival → Outcome) (hm : Checksums) (arrivals : List Arrival)
      (e : File) (es : List File) (ok : ℕ) (w : Awaited)
      → ((hm' : Checksums) (rest : List Arrival)
          → HonestMap crc_of hm'
          → All (HonestArrival crc_of) rest
          → All IsOpen rest
          → All (IsExpected hm' rest) es
          → Confirmed (next hm' (suc ok) rest))
      → AwaitedTruth crc_of e.fino w
      → Finds hm arrivals e.fino w
      → e.crc ≡ crc_of e.fino
      → All (λ d. d.fino ≢ e.fino) es
      → All (IsExpected hm arrivals) es
      → Confirmed (compare_crc next e ok w)
  unfolding compare_crc
  compare_crc-Confirmed next hm arrivals e es ok (ready c hm' rest) ih (q, h, ha) (f, o) agrees once
        x =
      rw same_crc (
        ih (remove e.fino hm') rest (HonestMap-remove crc_of e.fino hm' h) ha o
          (All-IsExpected e.fino hm hm' arrivals rest es f once x))
    where
      as_sent : as_u32 c ≡ crc_of e.fino
      as_sent = ap as_u32 q ∙ omega (arith, small e.fino)

      same_crc : (as_u32 c == e.crc) ≡ true
      same_crc = ground (arith, as_sent, agrees)
  compare_crc-Confirmed next hm arrivals e es ok lost ih t f agrees once x = f
  compare_crc-Confirmed next hm arrivals e es ok pending ih t f agrees once x = f

  -- If the sender's checksums are right and the channel stays open, and each entry of the message is
  -- about a file of its own, reports no error and agrees with the checksum of the bytes sent, which is
  -- in the map or arrives, then the message is confirmed.
  pub check_files-Confirmed :
      (es : List File) (hm : Checksums) (ok : ℕ) (arrivals : List Arrival)
      → HonestMap crc_of hm
      → All (HonestArrival crc_of) arrivals
      → All IsOpen arrivals
      → EachOnce es
      → All (Agrees crc_of) es
      → All (IsExpected hm arrivals) es
      → Confirmed (check_files es hm ok arrivals)
  unfolding check_files check_entry
  check_files-Confirmed [] hm ok arrivals h ha o once agrees x = tt
  check_files-Confirmed (e ∷ es) hm ok arrivals h ha o (once, ones) (ag, agrees) ((er, av), x) =
      rw er (elim (Bool-cases (is_empty_file e)) [
        | inl p ↦ rw p (check_files-Confirmed es hm (suc ok) arrivals h ha o ones agrees x)
        | inr p ↦ rw p (
            compare_crc-Confirmed (check_files es) hm arrivals e es ok (await e.fino arrivals hm)
              (λ hm' rest h' ha' o' x'.
                check_files-Confirmed es hm' (suc ok) rest h' ha' o' ones agrees x')
              (await-truth crc_of e.fino arrivals hm h ha)
              (await-Finds e.fino arrivals hm (available p av) o) (agreed p ag) once x)
      ])
    where
      available :
          is_empty_file e ≡ false
          → (is_empty_file e ≡ true) ⊎ Available hm arrivals e.fino
          → Available hm arrivals e.fino
      available p (inl q) = absurd (true-ne-false (sym q ∙ p))
      available p (inr v) = v

      agreed : is_empty_file e ≡ false → Agrees crc_of e → e.crc ≡ crc_of e.fino
      agreed p (inl q) = absurd (true-ne-false (sym q ∙ p))
      agreed p (inr v) = v
