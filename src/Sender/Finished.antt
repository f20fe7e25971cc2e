-- ===== src/Sender/Finished.antt =====
-- `fc_worker` of src/escp.rs: what libdtn reports of finished files goes to two channels, the checksums
-- to the one that `check_files` reads and the numbers of blocks to that of `send_file_complete`.
use escp.Base.{
  ℕ, ◌≡◌, ◌≢◌, refl, ap, List, [], ◌∷◌, map, Option, none, some, All, ◌==◌, ==_iff, if◌then◌else◌,
  Bool-cases, inl, inr, true-ne-false, sym, ◌∙◌,
}

-- `fc_info_struct`, without what is only logged.
record FcInfo : Type 0 where
  file_no : ℕ
  crc : ℕ
  blocks : ℕ

-- What is sent on `fc_in` and on `fc2_in`.
abbrev Sent : Type 0
Sent = List (ℕ × ℕ) × List (ℕ × ℕ)

send_both : FcInfo → Sent → Sent
send_both i (crcs, blocks) = ((i.file_no, i.crc) ∷ crcs, (i.file_no, i.blocks) ∷ blocks)

-- The loop, with the answers of `fc_pop`; `none` is a null pointer, and a number 0 ends the loop.
fc_worker : List (Option FcInfo) → Sent
unfolding send_both
fc_worker [] = ([], [])
fc_worker (none ∷ is) = fc_worker is
fc_worker (some i ∷ is) =
    let rest = fc_worker is in if i.file_no == 0 then ([], []) else send_both i rest

-- Both channels carry the same file numbers in the same order, none of them 0.
Paired : Sent → Type 0
Paired s = (map (λ c. c.0) (s.0) ≡ map (λ c. c.0) (s.1)) × All (λ c. c.0 ≢ 0) (s.0)

-- Whatever libdtn answers, both channels carry the same file numbers in the same order, none of them 0.
fc_worker-Paired : (is : List (Option FcInfo)) → Paired (fc_worker is)
unfolding fc_worker Paired send_both
fc_worker-Paired [] = (refl, tt)
fc_worker-Paired (none ∷ is) = fc_worker-Paired is
fc_worker-Paired (some i ∷ is) = elim (Bool-cases (i.file_no == 0)) [
  | inl q ↦ rw q (refl, tt)
  | inr q ↦
      let (e, a) = fc_worker-Paired is in
      rw q
        (ap (λ l. i.file_no ∷ l) e, ((λ z. true-ne-false (sym ((==_iff i.file_no 0).1 z) ∙ q)), a))
]
