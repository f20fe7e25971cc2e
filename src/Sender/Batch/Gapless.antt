-- ===== src/Sender/Batch/Gapless.antt =====
-- With no gap in the numbers, a round announces the whole queue.
use escp.Base.{
  ℕ, suc, ◌+◌, ◌≤◌, ◌<◌, ◌≡◌, refl, ap, sym, ◌∙◌, subst, ◌⊎◌, inl, inr, Bool, List, [], ◌∷◌, ◌++◌,
  Text, length, length-append, All, ltb, arith, Bool-cases,
}
use escp.Base.Sort.{
  sort_by_key, Above, Rising, All-sort_by_key, Rising-sort_by_key, length-sort_by_key,
}
use escp.Sender.Batch.{Entry, Batcher, Split, split_ready, send_ready, announce}
use escp.Sender.Batch.InOrder.{fino_of, Cut, split_ready-Cut, IsQueue, nothing}

-- Numbers above `k` that rise need as much room as there are of them.
Rising-room :
    (k b : ℕ) (l : List Entry)
    → Rising fino_of l
    → Above fino_of k l
    → All (λ e. e.fino ≤ b) l
    → (length l ≡ 0) ⊎ (k + length l ≤ b)
Rising-room k b [] r a h = inl refl
Rising-room k b (e ∷ l) (ab, r) (x, a) (y, h) = inr (room (Rising-room e.fino b l r ab h))
  where
    room : (length l ≡ 0) ⊎ (e.fino + length l ≤ b) → k + suc (length l) ≤ b
    room (inl q) = omega (arith, q, x, y)
    room (inr q) = omega (arith, q, x)

All-back : (P : Entry → Type 0) (a b : List Entry) → All P (a ++ b) → All P b
All-back P [] b h = h
All-back P (e ∷ a) b (h, hs) = All-back P a b hs

Cut-gapless :
    (sent : ℕ) (es : List Entry) (r : Split)
    → Cut sent es r
    → All (λ e. e.fino ≤ sent + length es) es
    → length r.kept ≡ 0
Cut-gapless sent es r c h = room (
    Rising-room (suc r.sent) (sent + length es) r.kept c.still_rising c.gap (
      All-back (λ e. e.fino ≤ sent + length es) r.ready r.kept
        (subst (All (λ e. e.fino ≤ sent + length es)) (sym c.all_there) h)))
  where
    room : (length r.kept ≡ 0) ⊎ (suc r.sent + length r.kept ≤ sent + length es) → length r.kept ≡ 0
    room (inl q) = q
    room (inr q) =
        absurd (omega (arith, q, c.counted, ap length c.all_there, length-append r.ready r.kept))

module _ (preserve : Bool) (dest_path : Text) (s : Batcher) where
  send_ready-vec :
      (r : Split) (ready : List Entry) → (send_ready preserve dest_path s r ready).0.vec ≡ r.kept
  unfolding send_ready
  send_ready-vec r [] = refl
  send_ready-vec r (e ∷ es) = refl

  -- If the queue is well formed and its numbers fill the room behind those announced, then the round
  -- leaves nothing in it.
  pub announce_gapless :
      IsQueue s
      → All (λ e. e.fino ≤ s.files_sent + length s.vec) s.vec
      → (announce preserve dest_path s).0.vec ≡ []
  unfolding announce
  announce_gapless w h = elim (Bool-cases (ltb 0 s.counter)) [
    | inl q ↦ rw q (
        send_ready-vec cut cut.ready
        ∙ nothing preserve dest_path s cut.kept (
            Cut-gapless s.files_sent (sort_by_key fino_of s.vec) cut
              (split_ready-Cut s.files_sent (sort_by_key fino_of s.vec)
                (All-sort_by_key fino_of (λ e. s.files_sent < e.fino) s.vec w.ahead)
                (Rising-sort_by_key fino_of s.vec w.once))
              (subst (λ n. All (λ e. e.fino ≤ s.files_sent + n) (sort_by_key fino_of s.vec))
                (sym (length-sort_by_key fino_of s.vec))
                (All-sort_by_key fino_of (λ e. e.fino ≤ s.files_sent + length s.vec) s.vec h))))
    | inr q ↦ rw q (nothing preserve dest_path s s.vec (ground (arith, w.counted)))
  ]
    where
      cut : Split
      cut = split_ready s.files_sent (sort_by_key fino_of s.vec)
