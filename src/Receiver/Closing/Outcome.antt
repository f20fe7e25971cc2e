-- ===== src/Receiver/Closing/Outcome.antt =====
-- What `close_file` closes, and where it stops.
use escp.Base.{
  ℕ, ◌%◌, ◌^◌, ◌≤◌, ◌<◌, ◌≡◌, refl, ap, sym, ◌∙◌, ◌⊎◌, inl, inr, Bool, true, false, ◌||◌, List, [],
  ◌∷◌, ◌++◌, none, some, HashMap, remove, arith, Option-cases, Bool-cases, some_inj, none-ne-some,
  append_assoc, append-nil, subst,
}
use escp.Base.Int.{ℤ, pos, negsuc, ltb_ℤ, as_i64}
use escp.Receiver.State.{FileInformation}
use escp.Receiver.Closing.{
  Stats, Effect, truncates, preserves, closes, frees_slot, Closed, finish, finish_effects,
  unfinished, close_file,
}

-- The calls for a file that is done: its size is set, its metadata if that is wanted, its descriptor is
-- closed, and its slot in libdtn's table is free again.
abbrev pub calls : Bool → ℕ → FileInformation → List Effect
calls true k fi = truncates fi.fd fi.sz ∷ preserves fi.fd fi ∷ closes fi.fd ∷ frees_slot k ∷ []
calls false k fi = truncates fi.fd fi.sz ∷ closes fi.fd ∷ frees_slot k ∷ []

-- The file's blocks are known and written, by libdtn's count as an i64; what is returned has libdtn's
-- checksum, and no other change.
abbrev pub Finished :
    Bool → HashMap Stats → HashMap FileInformation → ℕ → FileInformation → List Effect → Type 0
Finished dp stats h k out log =
    (st : Stats) × (fi : FileInformation) × (b : ℕ) × (stats k ≡ some st)
    × (h k ≡ some fi)
    × (fi.blocks ≡ pos b)
    × (b ≤ st.block_total % 2 ^ 64)
    × (st.block_total % 2 ^ 64 < 2 ^ 63)
    × (out ≡ record fi { crc = st.crc })
    × (log ≡ calls dp k fi)

-- Each file number with what is returned for it, and the calls in order; a finished file is gone from
-- both tables.
abbrev pub AllFinished :
    Bool
    → HashMap Stats
    → HashMap FileInformation
    → List ℕ
    → List FileInformation
    → List Effect
    → Type 0
AllFinished dp stats h [] [] log = log ≡ []
AllFinished dp stats h [] (_ ∷ _) log = ⊥
AllFinished dp stats h (_ ∷ _) [] log = ⊥
AllFinished dp stats h (k ∷ ks) (fi ∷ fis) log =
    (now : List Effect) × (later : List Effect) × (log ≡ now ++ later)
    × Finished dp stats h k fi now
    × AllFinished dp (remove k stats) (remove k h) ks fis later

abbrev pub removes {ℓ} : {V : Type ℓ} → List ℕ → HashMap V → HashMap V
removes [] h = h
removes (k ∷ ks) h = removes ks (remove k h)

-- The number of blocks is not known, or there are more than libdtn has written: its count, as an i64, is
-- smaller, or below 0.
abbrev pub IsOpenYet : ℤ → ℕ → Type 0
IsOpenYet (negsuc n) total = Unit
IsOpenYet (pos b) total = (total % 2 ^ 64 < b) ⊎ (2 ^ 63 ≤ total % 2 ^ 64)

-- The front of the queue cannot be finished: libdtn does not know it, or its blocks are not there.
abbrev pub Waits : HashMap Stats → HashMap FileInformation → List ℕ → Type 0
Waits stats h [] = Unit
Waits stats h (k ∷ ks) =
    (stats k ≡ none)
    ⊎ ((st : Stats) × (fi : FileInformation) × (stats k ≡ some st)
        × (h k ≡ some fi)
        × IsOpenYet fi.blocks st.block_total)

pub record Report (dp : Bool) (ks : List ℕ) (stats : HashMap Stats) (h : HashMap FileInformation)
    (ret : List FileInformation) (log : List Effect) (c : Closed) : Type 0 where
  pub done : List ℕ
  pub out : List FileInformation
  pub split : ks ≡ done ++ c.queue
  pub returned : c.ret ≡ ret ++ out
  pub made : List Effect
  pub logged : c.log ≡ log ++ made
  pub finished : AllFinished dp stats h done out made
  pub removed : c.hash ≡ removes done h
  pub waits : Waits (removes done stats) (removes done h) c.queue

reached :
    (z : ℤ) (n : ℕ)
    → (ltb_ℤ z (pos 0) || ltb_ℤ (as_i64 n) z) ≡ false
    → (b : ℕ) × (z ≡ pos b) × (b ≤ n % 2 ^ 64) × (n % 2 ^ 64 < 2 ^ 63)
reached (pos b) n e = (b, refl, ground arith, ground arith)
reached (negsuc b) n e = absurd (ground arith)

not_reached : (z : ℤ) (n : ℕ) → (ltb_ℤ z (pos 0) || ltb_ℤ (as_i64 n) z) ≡ true → IsOpenYet z n
not_reached (pos b) n e = ground arith
not_reached (negsuc b) n e = tt

unfinished-IsOpenYet :
    (fi : FileInformation) (st : Stats)
    → unfinished fi st ≡ true
    → IsOpenYet fi.blocks st.block_total
unfolding unfinished
unfinished-IsOpenYet fi st e = not_reached fi.blocks st.block_total e

finish_effects-calls :
    (dp : Bool) (k : ℕ) (fi : FileInformation) → finish_effects dp k fi ≡ calls dp k fi
unfolding finish_effects
finish_effects-calls true k fi = refl
finish_effects-calls false k fi = refl

unfinished-false :
    (fi : FileInformation) (st : Stats)
    → unfinished fi st ≡ false
    → (b : ℕ) × (fi.blocks ≡ pos b)
      × (b ≤ st.block_total % 2 ^ 64)
      × (st.block_total % 2 ^ 64 < 2 ^ 63)
unfolding unfinished
unfinished-false fi st e = reached fi.blocks st.block_total e

Report-stopped :
    (dp : Bool) (ks : List ℕ) (stats : HashMap Stats) (h : HashMap FileInformation)
    (ret : List FileInformation) (log : List Effect) (c : Closed)
    → Waits stats h ks
    → some (record { ret = ret; hash = h; queue = ks; log = log }) ≡ some c
    → Report dp ks stats h ret log c
Report-stopped dp ks stats h ret log c w q =
    subst (Report dp ks stats h ret log) (some_inj q) (record {
      done = [];
      out = [];
      split = refl;
      returned = sym (append-nil ret);
      made = [];
      logged = sym (append-nil log);
      finished = refl;
      removed = refl;
      waits = w;
    })

Report-Finished :
    (dp : Bool) (k : ℕ) (ks : List ℕ) (stats : HashMap Stats) (h : HashMap FileInformation)
    (ret : List FileInformation) (log now : List Effect) (fi : FileInformation) (c : Closed)
    → Finished dp stats h k fi now
    → Report dp ks (remove k stats) (remove k h) (ret ++ fi ∷ []) (log ++ now) c
    → Report dp (k ∷ ks) stats h ret log c
Report-Finished dp k ks stats h ret log now fi c f r = record {
  done = k ∷ r.done;
  out = fi ∷ r.out;
  split = ap (◌∷◌ k) r.split;
  returned = r.returned ∙ append_assoc ret (fi ∷ []) r.out;
  made = now ++ r.made;
  logged = r.logged ∙ append_assoc log now r.made;
  finished = (now, r.made, refl, f, r.finished);
  removed = r.removed;
  waits = r.waits;
}

-- If `close_file` returns, it has finished a front part of the queue, in order, each file once: its
-- number of blocks is known and written, its descriptor is closed after its size, and its metadata if
-- wanted, were set, its slot is freed, it is returned with libdtn's checksum and its entry is gone.
-- No other call is made. The rest of the queue is as it was, and of its front the number of blocks
-- is not known or not reached, or libdtn does not know it.
pub close_file-Report :
    (do_preserve : Bool) (ks : List ℕ) (stats : HashMap Stats) (h : HashMap FileInformation)
    (ret : List FileInformation) (log : List Effect) (c : Closed)
    → close_file do_preserve ks stats h ret log ≡ some c
    → Report do_preserve ks stats h ret log c
unfolding close_file finish
close_file-Report dp [] stats h ret log c q = Report-stopped dp [] stats h ret log c tt q
close_file-Report dp (k ∷ ks) stats h ret log c q = elim (Option-cases (stats k)) [
  | inl e ↦ Report-stopped dp (k ∷ ks) stats h ret log c (inl e) (rw (e, close_file) at q)
  | inr (st, e) ↦ elim (Option-cases (h k)) [
    | inl e' ↦ absurd (none-ne-some (rw (e, close_file, e', finish) at q))
    | inr (fi, e') ↦ elim (Bool-cases (unfinished fi st)) [
      | inl u ↦
          Report-stopped dp (k ∷ ks) stats h ret log c
            (inr (st, fi, e, e', unfinished-IsOpenYet fi st u))
            (rw (e, close_file, e', finish, u) at q)
      | inr u ↦
          let (b, eb, le, lt) = unfinished-false fi st u in
          Report-Finished dp k ks stats h ret log (finish_effects dp k fi) _ c
            (st, fi, b, e, e', eb, le, lt, refl, finish_effects-calls dp k fi)
            (close_file-Report dp ks (remove k stats) (remove k h) _ _ c
              (rw (e, close_file, e', finish, u) at q))
    ]
  ]
]
