-- ===== src/Config/Machine/Masks.antt =====
-- The copy of the processor mask stays inside the array of `dtn_args`.
use escp.Base.{
  ℕ, zero, suc, ◌≡◌, refl, ap, ◌≤◌, List, [], ◌∷◌, length, take, Option, some, Text, min, arith,
  ◌∙◌, true,
}
use escp.Config.Machine.{Machine, copy_bytes, mask_len, set_cpumask, decoded}

-- The copied bytes, and then the old ones.
abbrev Overwrites : ℕ → List ℕ → List ℕ → Type 0
Overwrites n src dst =
    (b : List ℕ) × (copy_bytes n src dst ≡ some b)
    × ((length b ≡ length dst) × (take n b ≡ take n src))

copy_bytes-Overwrites :
    (n : ℕ) (src dst : List ℕ) → n ≤ length src → n ≤ length dst → Overwrites n src dst
unfolding copy_bytes
copy_bytes-Overwrites zero src dst h k = (dst, refl, (refl, refl))
copy_bytes-Overwrites (suc n) [] dst h k = absurd (omega (arith, h))
copy_bytes-Overwrites (suc n) (x ∷ src) [] h k = absurd (omega (arith, k))
copy_bytes-Overwrites (suc n) (x ∷ src) (y ∷ dst) h k =
    let (b, e, (l, t)) = copy_bytes-Overwrites n src dst (omega (arith, h)) (omega (arith, k)) in
    (x ∷ b, rw e refl, (ap suc l, ap (λ r. x ∷ r) t))

mask_len-min : (res : List ℕ) → mask_len res ≡ min 32 (length res)
unfolding mask_len
mask_len-min res = ground arith

-- If the array has 32 bytes and `cpumask` is hexadecimal, then the copy leaves neither the mask nor the
-- array: `cpumask_len` is the mask's number of bytes, 32 at most, the array still has 32 bytes and begins
-- with that many bytes of the mask, and the affinity is on.
pub set_cpumask-fits :
    (decode : Text → Option (List ℕ)) (s : Text) (res : List ℕ) (a : Machine)
    → decode s ≡ some res
    → length a.cpumask_bytes ≡ 32
    → (b : Machine) × (set_cpumask decode (some s) a ≡ some b)
      × ((length b.cpumask_bytes ≡ 32)
          × ((b.cpumask_len ≡ min 32 (length res))
              × ((take b.cpumask_len b.cpumask_bytes ≡ take b.cpumask_len res)
                  × (b.do_affinity ≡ true))))
unfolding set_cpumask
set_cpumask-fits decode s res a d l =
    let e = mask_len-min res in
    let (b, q, (m, t)) =
      copy_bytes-Overwrites (mask_len res) res a.cpumask_bytes (omega (arith, e))
        (omega (arith, e, l)) in
    (
      record a { do_affinity = true; cpumask_bytes = b; cpumask_len = mask_len res },
      rw (d, decoded, q) refl,
      (m ∙ l, (e, (t, refl))),
    )
