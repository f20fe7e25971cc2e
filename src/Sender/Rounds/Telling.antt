-- ===== src/Sender/Rounds/Telling.antt =====
-- What an announcement keeps.
use mathlib.Core.List.{Perm}
use mathlib.Core.List.Perm
use escp.Base.{
  ◌≡◌, refl, ap, sym, ◌∙◌, subst, inl, inr, Bool, List, [], ◌∷◌, ◌++◌, map, append_assoc,
  append-nil, Option, none, some, Text, length, length-append, ltb, arith, Bool-cases,
}
use escp.Base.Totals.{Perm-length}
use escp.Wire.FileSpec.{FileList}
use escp.Sender.Batch.{Entry, Batcher, Split, file_args, announcement, announce, send_ready}
use escp.Sender.Batch.InOrder.{numbers, count_up, Announced, Announces}
use escp.Sender.Batch.Gather.{entries}
use escp.Sender.Finish.Confirmed.{or_none}
use escp.Sender.Rounds.{Round}
use escp.Sender.Rounds.Kept.{listed, listed-append, map-append_lem, numbers-append, Kept}

-- What neither half of a round's announcement changes.
pub record Unmoved (s u : Batcher) : Type 0 where
  pub totals : u.files_total ≡ s.files_total
  pub closing : u.do_break ≡ s.do_break
  pub checksums : u.fc_hash ≡ s.fc_hash

module _ (preserve : Bool) (dest_path : Text) where
  send_ready-Unmoved :
      (s : Batcher) (r : Split) (es : List Entry)
      → Unmoved s ((send_ready preserve dest_path s r es).0)
  unfolding send_ready
  send_ready-Unmoved s r [] = record { totals = refl; closing = refl; checksums = refl }
  send_ready-Unmoved s r (e ∷ es) = record { totals = refl; closing = refl; checksums = refl }

  pub announce-Unmoved : (s : Batcher) → Unmoved s ((announce preserve dest_path s).0)
  unfolding announce
  announce-Unmoved s = elim (Bool-cases (ltb 0 s.counter)) [
    | inl q ↦ rw q (send_ready-Unmoved s _ _)
    | inr q ↦ rw q (record { totals = refl; closing = refl; checksums = refl })
  ]

  abbrev pub and_message : List FileList → Option FileList → List FileList
  and_message out none = out
  and_message out (some m) = out ++ m ∷ []

  listed-and_message :
      (s : Batcher) (out : List FileList) (ready : List Entry) (m : Option FileList)
      → Announces preserve dest_path s ready m
      → listed (and_message out m) ≡ listed out ++ map (file_args preserve) ready
  unfolding announcement
  listed-and_message s out ready none q =
      sym (append-nil (listed out)) ∙ ap (λ l. listed out ++ map (file_args preserve) l) (sym q)
  listed-and_message s out ready (some m) q =
      listed-append out m ∙ ap (λ x. listed out ++ or_none x.files) q

  pub Kept-announced :
      (all : List Entry) (r : Round) (p : Batcher × Option FileList)
      → Announced preserve dest_path r.batch p
      → Unmoved r.batch p.0
      → Kept preserve all r
      → Kept preserve all (record r { batch = p.0; out = and_message r.out p.1 })
  Kept-announced all r p a u h = record {
    announced = h.announced ++ a.ready;
    all_there =
        Perm.trans
          (subst (λ l. Perm l (h.announced ++ (r.batch.vec ++ entries r.channel))) regroup
            (Perm.append_left h.announced (Perm.append_right (entries r.channel) a.all_there)))
          h.all_there;
    in_order = numbers-append 1 h.announced a.ready h.in_order (
        subst (λ n. numbers a.ready ≡ count_up n (length a.ready)) (omega (arith, h.sent))
          a.next_numbers);
    sent = omega (arith, a.sent, h.sent, length-append h.announced a.ready);
    counted = a.queue.counted;
    totalled = omega (
      arith,
      u.totals,
      h.totalled,
      Perm-length a.all_there,
      length-append h.announced a.ready,
      length-append a.ready p.0.vec,
    );
    messages =
        listed-and_message r.batch r.out a.ready p.1 a.message
        ∙ ap (λ l. l ++ map (file_args preserve) a.ready) h.messages
        ∙ sym (map-append_lem (file_args preserve) h.announced a.ready);
  }
    where
      regroup :
          h.announced ++ ((a.ready ++ p.0.vec) ++ entries r.channel)
          ≡ (h.announced ++ a.ready) ++ (p.0.vec ++ entries r.channel)
      regroup =
          ap (λ l. h.announced ++ l) (append_assoc a.ready p.0.vec (entries r.channel))
          ∙ sym (append_assoc h.announced a.ready (p.0.vec ++ entries r.channel))
