-- ===== src/Sender/Batch/Gather.antt =====
-- What a round of receiving adds to the queue.
use escp.Base.{
  ℕ, ◌+◌, ◌<◌, ◌≡◌, ◌≢◌, refl, sym, ◌∙◌, subst, inl, inr, Bool, true, false, List, [], ◌∷◌, ◌++◌,
  Option, none, some, Text, insert, length, length-append, append_assoc, All, ltb, ◌==◌, arith,
  Bool-cases,
}
use escp.Base.Int.{ℤ, pos, negsuc}
use escp.Base.Sort.{Above, EachOnce}
use escp.Sender.Check.{Checksums}
use escp.Sender.Check.Truth.{HonestMap, HonestEntry}
use escp.Sender.Batch.{Entry, Received, entry, timed_out, closed, Batcher, named, take_in, collect}
use escp.Sender.Batch.InOrder.{fino_of, IsQueue}

-- The files in the channel, in order.
abbrev pub entries : List Received → List Entry
entries [] = []
entries (entry e ∷ rest) = e ∷ entries rest
entries (timed_out ∷ rest) = entries rest
entries (closed ∷ rest) = entries rest

pub record Gathered (channel : List Received) (s : Batcher) (r : Batcher × List Received × Bool)
    : Type 0 where
  pub in_order : r.0.vec ++ entries r.1 ≡ s.vec ++ entries channel
  pub counted : r.0.counter + length s.vec ≡ s.counter + length r.0.vec
  pub totalled : r.0.files_total + length s.vec ≡ s.files_total + length r.0.vec
  pub unsent : r.0.files_sent ≡ s.files_sent
  pub honest : (crc_of : ℕ → ℕ) → HonestMap crc_of s.fc_hash → HonestMap crc_of r.0.fc_hash

named-keeps :
    (crc_of : ℕ → ℕ) (e : Entry) (k : ℕ) (o : Option (ℤ × Text))
    → HonestEntry crc_of k o
    → HonestEntry crc_of k (some (named e o))
unfolding named
named-keeps crc_of e k none x = refl
named-keeps crc_of e k (some (pos c, name)) x = x
named-keeps crc_of e k (some (negsuc n, name)) x = x

HonestMap-named :
    (crc_of : ℕ → ℕ) (e : Entry) (hm : Checksums)
    → HonestMap crc_of hm
    → HonestMap crc_of (insert e.fino (named e (hm e.fino)) hm)
HonestMap-named crc_of e hm h j = elim (Bool-cases (e.fino == j)) [
  | inl q ↦ rw q (
      subst (λ k. HonestEntry crc_of k (some (named e (hm e.fino)))) (same q)
        (named-keeps crc_of e e.fino (hm e.fino) (h e.fino)))
  | inr q ↦ rw q (h j)
]
  where
    same : (e.fino == j) ≡ true → e.fino ≡ j
    same q = ground arith

Gathered-refl :
    (channel rest : List Received) (s s' : Batcher) (quiet : Bool)
    → entries rest ≡ entries channel
    → s'.vec ≡ s.vec
    → s'.counter ≡ s.counter
    → s'.files_total ≡ s.files_total
    → s'.files_sent ≡ s.files_sent
    → s'.fc_hash ≡ s.fc_hash
    → Gathered channel s (s', rest, quiet)
Gathered-refl channel rest s s' quiet e v c t f h = record {
  in_order = rw (e, v) refl;
  counted = rw (v, c) refl;
  totalled = rw (v, t) refl;
  unsent = f;
  honest = λ crc_of x. rw h x;
}

-- One file, and then what the rest of the round gathers.
Gathered-entry :
    (e : Entry) (rest : List Received) (s : Batcher) (r : Batcher × List Received × Bool)
    → Gathered rest (take_in e s) r
    → Gathered (entry e ∷ rest) s r
unfolding take_in
Gathered-entry e rest s r g = record {
  in_order = g.in_order ∙ append_assoc s.vec (e ∷ []) (entries rest);
  counted = omega (arith, g.counted, length-append s.vec (e ∷ []));
  totalled = omega (arith, g.totalled, length-append s.vec (e ∷ []));
  unsent = g.unsent;
  honest = λ crc_of h. g.honest crc_of (HonestMap-named crc_of e s.fc_hash h);
}

-- A round of receiving moves a front part of the channel's files to the back of the queue, in order,
-- counts each of them, and leaves the checksums that the sender knows as they were.
pub collect-Gathered :
    (channel : List Received) (s : Batcher) → Gathered channel s (collect channel s)
unfolding collect
collect-Gathered [] s = Gathered-refl [] [] s s true refl refl refl refl refl refl
collect-Gathered (timed_out ∷ rest) s =
    Gathered-refl (timed_out ∷ rest) rest s s true refl refl refl refl refl refl
collect-Gathered (closed ∷ rest) s =
    Gathered-refl (closed ∷ rest) rest s (record s { do_break = true }) false refl refl refl refl
      refl refl
collect-Gathered (entry e ∷ rest) s =
    elim (Bool-cases (ltb (take_in e s).counter_max (take_in e s).counter)) [
      | inl q ↦ rw q (
          Gathered-entry e rest s (record (take_in e s) { counter_max = 300 }, rest, false)
            (Gathered-refl rest rest (take_in e s) (record (take_in e s) { counter_max = 300 })
              false refl refl refl refl refl refl))
      | inr q ↦ rw q (
          Gathered-entry e rest s (collect rest (take_in e s))
            (collect-Gathered rest (take_in e s)))
    ]

pub All-front : (P : Entry → Type 0) (a b : List Entry) → All P (a ++ b) → All P a
All-front P [] b h = tt
All-front P (e ∷ a) b (h, hs) = (h, All-front P a b hs)

pub EachOnce-front : (a b : List Entry) → EachOnce fino_of (a ++ b) → EachOnce fino_of a
EachOnce-front [] b o = tt
EachOnce-front (e ∷ a) b (h, o) =
    (All-front (λ d. fino_of d ≢ fino_of e) a b h, EachOnce-front a b o)

-- If the queue is well formed, and no number in it or in the channel comes twice or was announced
-- before, then the queue is well formed after a round of receiving.
pub collect-IsQueue :
    (channel : List Received) (s : Batcher)
    → IsQueue s
    → EachOnce fino_of (s.vec ++ entries channel)
    → Above fino_of s.files_sent (s.vec ++ entries channel)
    → IsQueue ((collect channel s).0)
collect-IsQueue channel s w once ahead =
    let g = collect-Gathered channel s in
    let r = collect channel s in
    record {
      counted = omega (arith, g.counted, w.counted);
      once = EachOnce-front r.0.vec (entries r.1) (subst (EachOnce fino_of) (sym g.in_order) once);
      ahead =
          All-front (λ e. r.0.files_sent < fino_of e) r.0.vec (entries r.1)
            (subst (λ n. Above fino_of n (r.0.vec ++ entries r.1)) (sym g.unsent)
              (subst (Above fino_of s.files_sent) (sym g.in_order) ahead));
    }
