-- ===== src/Sender/Rounds/Complete.antt =====
-- The rounds come to an end, and then every file has been announced.
use mathlib.Core.List.{Perm}
use mathlib.Core.List.Perm
use escp.Base.{
  ℕ, zero, suc, ◌≤◌, ◌<◌, ◌≡◌, refl, ap, ◌∙◌, subst, Bool, false, List, [], ◌∷◌, ◌++◌, map,
  append-nil, Text, length, arith,
}
use escp.Base.Totals.{Perm-length}
use escp.Sender.Check.{Checksums, Arrival}
use escp.Sender.Check.Truth.{Any}
use escp.Sender.Batch.{Entry, Received, file_args}
use escp.Sender.Batch.InOrder.{numbers, count_up}
use escp.Sender.Batch.Gather.{entries}
use escp.Sender.Finish.{Inbox}
use escp.Sender.Rounds.{Round, Turn, goes, leaves, stops, turn, after, rounds, start}
use escp.Sender.Rounds.Kept.{IsWhole, listed, Kept}
use escp.Sender.Rounds.Closing.{EndsClosed}
use escp.Sender.Rounds.Turns.{Blamed, Done, After, turn-After}

module _ (preserve : Bool) (dest_path : Text) (all : List Entry) (whole : IsWhole all) where
  abbrev Outcome : List Inbox → Turn → Type 0
  Outcome inbox (goes v) = ⊥
  Outcome inbox (leaves v) = Done preserve dest_path all whole v
  Outcome inbox (stops c) = Blamed inbox c

  rounds-Outcome :
      (n : ℕ) (inbox : List Inbox) (r : Round)
      → Kept preserve all r
      → EndsClosed r.channel
      → r.batch.do_break ≡ false
      → length r.channel ≤ n
      → ((m : Inbox) → Any (λ x. x ≡ m) r.inbox → Any (λ x. x ≡ m) inbox)
      → Outcome inbox (rounds preserve dest_path n r)
  unfolding rounds after
  rounds-Outcome zero inbox r h e q l sub = absurd (some_left r.channel e (omega (arith, l)))
    where
      some_left : (c : List Received) → EndsClosed c → length c ≡ 0 → ⊥
      some_left [] e q = e
      some_left (x ∷ c) e q = omega (arith, q)
  rounds-Outcome (suc n) inbox r h e q l sub =
      onward (turn preserve dest_path r)
        (λ v k e' q' l' sub'.
          rounds-Outcome n inbox v k e' q' (omega (arith, l, l')) (λ m a. sub m (sub' m a)))
        (turn-After preserve dest_path all whole r h e q)
    where
      onward :
          (t : Turn)
          → ((v : Round)
              → Kept preserve all v
              → EndsClosed v.channel
              → v.batch.do_break ≡ false
              → length v.channel < length r.channel
              → ((m : Inbox) → Any (λ x. x ≡ m) v.inbox → Any (λ x. x ≡ m) r.inbox)
              → Outcome inbox (rounds preserve dest_path n v))
          → After preserve dest_path all whole (length r.channel) r.inbox t
          → Outcome inbox (after (rounds preserve dest_path n) t)
      onward (goes v) again (k, ((e', (q', l')), sub')) = again v k e' q' l' sub'
      onward (leaves v) again d = d
      onward (stops c) again b = record {
        message = b.message;
        among = sub b.message b.among;
        known = b.known;
        confirmed = b.confirmed;
        arrivals = b.arrivals;
        result = b.result;
        no_way_on = b.no_way_on;
      }

-- What `iterate_files` has done when it returns: the messages list all files that came, each once and
-- in the order of their numbers, with the metadata if it is to be preserved; and it returns how many
-- there are.
pub record AllAnnounced (preserve : Bool) (all : List Entry) (r : Round) : Type 0 where
  pub files : List Entry
  pub same_files : Perm files all
  pub in_order : numbers files ≡ count_up 1 (length all)
  pub messages : listed r.out ≡ map (file_args preserve) files
  pub returned : r.batch.files_total ≡ length all

-- How the rounds end; no other way is left.
abbrev pub Ends : Bool → List Entry → List Inbox → Turn → Type 0
Ends preserve all inbox (goes v) = ⊥
Ends preserve all inbox (leaves v) = AllAnnounced preserve all v
Ends preserve all inbox (stops c) = Blamed inbox c

Done-AllAnnounced :
    (preserve : Bool) (dest_path : Text) (all : List Entry) (whole : IsWhole all) (r : Round)
    → Done preserve dest_path all whole r
    → AllAnnounced preserve all r
Done-AllAnnounced preserve dest_path all whole r d =
    let h = d.kept in
    let p =
      subst (λ l. Perm l all)
        (ap (λ v. h.announced ++ (v ++ entries r.channel)) d.no_queue
          ∙ ap (λ c. h.announced ++ entries c) d.no_channel
          ∙ append-nil h.announced)
        h.all_there in
    record {
      files = h.announced;
      same_files = p;
      in_order = h.in_order ∙ ap (count_up 1) (Perm-length p);
      messages = h.messages;
      returned = omega (arith, h.totalled, Perm-length p, ap length d.no_queue);
    }

-- If the channel gives files whose numbers are 1, 2, ..., in any order, and is then closed, then as
-- many rounds as it gives answers are enough: the rounds end, and either every file has been
-- announced, in the order of the numbers, or the process ended, or waits, at a message of the
-- receiver at which `file_check` did not go on.
pub rounds-AllAnnounced :
    (preserve : Bool) (dest_path : Text) (n : ℕ) (fc_hash : Checksums) (channel : List Received)
    (inbox : List Inbox) (arrivals : List Arrival)
    → EndsClosed channel
    → IsWhole (entries channel)
    → length channel ≤ n
    → Ends preserve
        (entries channel)
        inbox
        (rounds preserve dest_path n (start fc_hash channel inbox arrivals))
unfolding start
rounds-AllAnnounced preserve dest_path n fc_hash channel inbox arrivals e w l = finish _ (
    rounds-Outcome preserve dest_path (entries channel) w n inbox
      (start fc_hash channel inbox arrivals)
      (record {
        announced = [];
        all_there = Perm.refl (entries channel);
        in_order = refl;
        sent = refl;
        counted = refl;
        totalled = refl;
        messages = refl;
      })
      e refl l (λ m a. a))
  where
    finish :
        (t : Turn)
        → Outcome preserve dest_path (entries channel) w inbox t
        → Ends preserve (entries channel) inbox t
    finish (goes v) x = x
    finish (leaves v) d = Done-AllAnnounced preserve dest_path (entries channel) w v d
    finish (stops c) b = b
