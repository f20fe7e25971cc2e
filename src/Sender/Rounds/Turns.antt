-- ===== src/Sender/Rounds/Turns.antt =====
-- What one round keeps, and how it ends.
use escp.Base.{
  ℕ, ◌≡◌, ◌≢◌, refl, ap, sym, ◌∙◌, subst, inl, inr, Bool, true, false, List, [], ◌∷◌, Option, none,
  some, Text, length, length-append, ltb, arith, Bool-cases,
}
use escp.Base.Totals.{Perm-length}
use escp.Wire.FileSpec.{FileList}
use escp.Sender.Check.{Checksums, Arrival}
use escp.Sender.Check.Truth.{Any, here, there}
use escp.Sender.Batch.{Entry, Received, Batcher, collect, announce}
use escp.Sender.Batch.InOrder.{Announced, Announces, announce-Announced}
use escp.Sender.Batch.Gapless.{announce_gapless}
use escp.Sender.Batch.Gather.{collect-Gathered}
use escp.Sender.Finish.{
  Inbox, FileCheck, goes_on, bad, process_exits, process_panics, waits_for_checksum, file_check,
}
use escp.Sender.Rounds.{
  Round, Turn, goes, leaves, stops, leave_if, told, tell, heard, listen, received, turn,
  first_message, other_messages,
}
use escp.Sender.Rounds.Kept.{IsWhole, Kept, Kept-IsQueue, Kept-fills, Kept-collect}
use escp.Sender.Rounds.Telling.{announce-Unmoved, and_message, Kept-announced}
use escp.Sender.Rounds.Closing.{EndsClosed, IsOpen, State, collect-State}

-- A message, among those that the receiver sent, at which `file_check` did not go on.
pub record Blamed (inbox : List Inbox) (c : FileCheck) : Type 0 where
  pub message : Inbox
  pub among : Any (λ m. m ≡ message) inbox
  pub known : Checksums
  pub confirmed : ℕ
  pub arrivals : List Arrival
  pub result : file_check message known confirmed arrivals ≡ c
  pub no_way_on : (hm : Checksums) (ok : ℕ) (rest : List Arrival) → c ≢ goes_on hm ok rest

module _ (preserve : Bool) (dest_path : Text) (all : List Entry) (whole : IsWhole all) where
  -- With the channel closed, everything announced and nothing left in the queue.
  pub record Done (r : Round) : Type 0 where
    pub kept : Kept preserve all r
    pub no_queue : r.batch.vec ≡ []
    pub no_channel : r.channel ≡ []

  abbrev pub After : ℕ → List Inbox → Turn → Type 0
  After n inbox (goes v) =
      Kept preserve all v
      × (IsOpen n v.channel v.batch.do_break
          × ((m : Inbox) → Any (λ x. x ≡ m) v.inbox → Any (λ x. x ≡ m) inbox))
  After n inbox (leaves v) = Done v
  After n inbox (stops c) = Blamed inbox c

  abbrev next_round : Round → Batcher × Option FileList → Round
  next_round u p = record u { batch = p.0; out = and_message preserve dest_path u.out p.1 }

  told_open :
      (u : Round) (p : Batcher × Option FileList)
      → p.0.do_break ≡ false
      → told u p ≡ goes (next_round u p)
  unfolding told
  told_open u (s, some m) q = rw (q, leave_if) refl
  told_open u (s, none) q = elim (Bool-cases (ltb 0 u.batch.counter)) [
    | inl x ↦ rw x refl
    | inr x ↦ rw (x, q, leave_if) refl
  ]

  told_shut :
      (u : Round) (p : Batcher × Option FileList)
      → p.0.do_break ≡ true
      → (p.1 ≡ none → ltb 0 u.batch.counter ≡ false)
      → told u p ≡ leaves (next_round u p)
  unfolding told
  told_shut u (s, some m) q h = rw (q, leave_if) refl
  told_shut u (s, none) q h = rw (h refl, q, leave_if) refl

  -- With an empty queue after it, a round without a message had nothing in the queue.
  idle :
      (u : Round) (p : Batcher × Option FileList)
      → Announced preserve dest_path u.batch p
      → Kept preserve all u
      → p.0.vec ≡ []
      → p.1 ≡ none
      → ltb 0 u.batch.counter ≡ false
  idle u p a h v q = small (
      omega (
        arith,
        h.counted,
        Perm-length a.all_there,
        length-append a.ready p.0.vec,
        ap length v,
        ap length nothing_ready,
      ))
    where
      nothing_ready : a.ready ≡ []
      nothing_ready = subst (Announces preserve dest_path u.batch a.ready) q a.message

      small : u.batch.counter ≡ 0 → ltb 0 u.batch.counter ≡ false
      small e = ground (arith, e)

  tell-After :
      (n : ℕ) (inbox : List Inbox) (u : Round)
      → Kept preserve all u
      → State n u.channel u.batch.do_break
      → ((m : Inbox) → Any (λ x. x ≡ m) u.inbox → Any (λ x. x ≡ m) inbox)
      → After n inbox (tell preserve dest_path u)
  unfolding tell
  tell-After n inbox u h (inl (e, (q, l))) sub =
      let a = announce-Announced preserve dest_path u.batch (Kept-IsQueue preserve all whole u h) in
      let p = announce preserve dest_path u.batch in
      let m = announce-Unmoved preserve dest_path u.batch in
      subst (After n inbox) (sym (told_open u p (m.closing ∙ q)))
        (Kept-announced preserve dest_path all u p a m h, ((e, (m.closing ∙ q, l)), sub))
  tell-After n inbox u h (inr (c, q)) sub =
      let w = Kept-IsQueue preserve all whole u h in
      let a = announce-Announced preserve dest_path u.batch w in
      let p = announce preserve dest_path u.batch in
      let m = announce-Unmoved preserve dest_path u.batch in
      let v = announce_gapless preserve dest_path u.batch w (Kept-fills preserve all whole u h c) in
      subst (After n inbox) (sym (told_shut u p (m.closing ∙ q) (idle u p a h v))) (record {
        kept = Kept-announced preserve dest_path all u p a m h;
        no_queue = v;
        no_channel = c;
      })

  others-among :
      (inbox : List Inbox) (m : Inbox)
      → Any (λ x. x ≡ m) (other_messages inbox)
      → Any (λ x. x ≡ m) inbox
  unfolding other_messages
  others-among [] m a = a
  others-among (x ∷ inbox) m a = there a

  blame :
      (inbox : List Inbox) (known : Checksums) (ok : ℕ) (arrivals : List Arrival)
      → ((hm : Checksums) (n : ℕ) (rest : List Arrival)
          → file_check (first_message inbox) known ok arrivals ≢ goes_on hm n rest)
      → Blamed inbox (file_check (first_message inbox) known ok arrivals)
  unfolding first_message file_check
  blame [] known ok arrivals h = absurd (h known ok arrivals refl)
  blame (m ∷ inbox) known ok arrivals h = record {
    message = m;
    among = here refl;
    known = known;
    confirmed = ok;
    arrivals = arrivals;
    result = refl;
    no_way_on = h;
  }

  heard-After :
      (n : ℕ) (r : Round) (c : FileCheck)
      → (((hm : Checksums) (ok : ℕ) (rest : List Arrival) → c ≢ goes_on hm ok rest)
          → Blamed r.inbox c)
      → Kept preserve all r
      → State n r.channel r.batch.do_break
      → After n r.inbox (heard (tell preserve dest_path) r c)
  unfolding heard
  heard-After n r (goes_on hm ok arrivals) b h s =
      tell-After n r.inbox _
        (record {
          announced = h.announced;
          all_there = h.all_there;
          in_order = h.in_order;
          sent = h.sent;
          counted = h.counted;
          totalled = h.totalled;
          messages = h.messages;
        })
        s (others-among r.inbox)
  heard-After n r bad b h s = b (λ hm ok rest e. cc)
  heard-After n r process_exits b h s = b (λ hm ok rest e. cc)
  heard-After n r process_panics b h s = b (λ hm ok rest e. cc)
  heard-After n r waits_for_checksum b h s = b (λ hm ok rest e. cc)

  received-After :
      (n : ℕ) (r : Round) (c : Batcher × List Received × Bool)
      → Kept preserve all (record r { batch = c.0; channel = c.1 })
      → State n c.1 c.0.do_break
      → After n r.inbox (received (tell preserve dest_path) r c)
  unfolding received listen
  received-After n r (s, rest, true) h st =
      heard-After n (record r { batch = s; channel = rest })
        (file_check (first_message r.inbox) s.fc_hash r.files_ok r.arrivals)
        (blame r.inbox s.fc_hash r.files_ok r.arrivals) h st
  received-After n r (s, rest, false) h st =
      tell-After n r.inbox (record r { batch = s; channel = rest }) h st (λ m a. a)

  pub turn-After :
      (r : Round)
      → Kept preserve all r
      → EndsClosed r.channel
      → r.batch.do_break ≡ false
      → After (length r.channel) r.inbox (turn preserve dest_path r)
  unfolding turn
  turn-After r h e q =
      received-After (length r.channel) r (collect r.channel r.batch)
        (Kept-collect preserve all whole r (collect r.channel r.batch)
          (collect-Gathered r.channel r.batch) h)
        (collect-State r.channel r.batch e q)
