-- ===== src/Receiver/Completions.antt =====
-- `send_file_completions` and `send_file_error`: what the receiver reports to the sender.
use mathlib.Core.List.{reverse, reverse-reverse}
use escp.Base.{
  ℕ, zero, suc, ◌+◌, ◌≤◌, ◌≡◌, refl, ap, ◌∙◌, true, List, [], ◌∷◌, ◌++◌, map, Option, none, some,
  Text, length, arith, length-append, some_inj, subst, append_assoc,
}
use escp.Base.Int.{ℤ}
use escp.Wire.FileSpec.{File, file_default, FileList, file_list_default}
use escp.Receiver.State.{FileInformation}

-- The entry for one finished file.
abbrev pub file_stat : FileInformation → File
file_stat fi = record file_default { fino = fi.fino; crc = fi.crc }

abbrev pub batch : ℕ
batch = 4096

-- `while let Some(fi) = files_complete.pop()`, with the rounds left before the break. The list is the
-- vector from its last element.
unfoldable pub drain : ℕ → List FileInformation → List File → List File × List FileInformation
drain zero rest v = (v, rest)
drain (suc n) [] v = (v, [])
drain (suc n) (fi ∷ rest) v = drain n rest (v ++ file_stat fi ∷ [])

unfoldable pub stat_message : List File → FileList
stat_message v = record file_list_default { files = some v; fc_stat = true }

-- `none` is the result false: there was nothing to send. Else the message, and the vector after it.
unfoldable pub send_file_completions :
    List FileInformation → Option (FileList × List FileInformation)
send_file_completions [] = none
send_file_completions (fi ∷ fis) =
    let (v, rest) = drain batch (reverse (fi ∷ fis)) [] in some (stat_message v, reverse rest)

pub send_file_error : ℕ → Text → Text → ℤ → FileList
send_file_error fino name errmsg errno = stat_message (
    record file_default { fino = fino; name = some name; errmsg = some errmsg; errno = errno } ∷ [])

drain_lem :
    (n : ℕ) (fis : List FileInformation) (v : List File)
    → (drain n fis v).0 ++ map file_stat (drain n fis v).1 ≡ v ++ map file_stat fis
unfolding drain
drain_lem zero fis v = refl
drain_lem (suc n) [] v = refl
drain_lem (suc n) (fi ∷ fis) v =
    drain_lem n fis (v ++ file_stat fi ∷ [])
    ∙ append_assoc v (file_stat fi ∷ []) (map file_stat fis)

length-drain :
    (n : ℕ) (fis : List FileInformation) (v : List File) → length (drain n fis v).0 ≤ length v + n
unfolding drain
length-drain zero fis v = omega arith
length-drain (suc n) [] v = omega arith
length-drain (suc n) (fi ∷ fis) v =
    omega (arith, length-drain n fis (v ++ file_stat fi ∷ []), length-append v (file_stat fi ∷ []))

-- One message.
pub record Sent (fis : List FileInformation) (m : FileList) (rest : List FileInformation)
    : Type 0 where
  pub sent : List File
  pub body : m.files ≡ some sent
  pub marked : m.fc_stat ≡ true
  pub at_most : length sent ≤ batch
  pub complete : sent ++ map file_stat (reverse rest) ≡ map file_stat (reverse fis)

-- A message holds the last files of the vector, 4096 at most, each with its number and checksum; what
-- is left is the vector without them. So a run of messages reports every finished file once.
pub send_file_completions-Sent :
    (fis : List FileInformation) (m : FileList) (rest : List FileInformation)
    → send_file_completions fis ≡ some (m, rest)
    → Sent fis m rest
unfolding send_file_completions stat_message
send_file_completions-Sent [] m rest q = cc
send_file_completions-Sent (fi ∷ fis) m rest q =
    subst (λ (p : FileList × List FileInformation). Sent (fi ∷ fis) p.0 p.1) (some_inj q)
      (record {
        sent = (drain batch back []).0;
        body = refl;
        marked = refl;
        at_most = length-drain batch back [];
        complete =
            ap (λ l. (drain batch back []).0 ++ map file_stat l)
              (reverse-reverse (drain batch back []).1)
            ∙ drain_lem batch back [];
      })
  where
    back : List FileInformation
    back = reverse (fi ∷ fis)
