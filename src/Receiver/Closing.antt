-- ===== src/Receiver/Closing.antt =====
-- `close_file`: closing the files of the queue `files_close` whose blocks are all written.
pub mod Outcome
use escp.Base.{
  ℕ, Bool, true, false, ◌||◌, List, [], ◌∷◌, ◌++◌, Option, none, some, HashMap, insert, remove,
  if◌then◌else◌,
}
use escp.Base.Int.{ℤ, pos, negsuc, ltb_ℤ, as_i64}
use escp.Receiver.State.{FileInformation}

-- What `file_getstats` shows of a file in libdtn's table.
pub record Stats : Type 0 where
  pub block_total : ℕ
  pub crc : ℕ

pub data Effect : Type 0 where
  truncates : ℕ → ℤ → Effect
  preserves : ℕ → FileInformation → Effect
  closes : ℕ → Effect
  frees_slot : ℕ → Effect

pub record Closed : Type 0 where
  pub ret : List FileInformation
  pub hash : HashMap FileInformation
  pub queue : List ℕ
  pub log : List Effect

-- The calls for one finished file.
unfoldable pub finish_effects : Bool → ℕ → FileInformation → List Effect
finish_effects do_preserve k fi =
    truncates fi.fd fi.sz
    ∷ ((if do_preserve then preserves fi.fd fi ∷ [] else []) ++ closes fi.fd ∷ frees_slot k ∷ [])

-- The file is not finished: its number of blocks is not known, or not reached.
unfoldable pub unfinished : FileInformation → Stats → Bool
unfinished fi st = ltb_ℤ fi.blocks (pos 0) || ltb_ℤ (as_i64 st.block_total) fi.blocks

-- The step for the file at the front, when libdtn knows it; `next` goes on with the queue behind it.
unfoldable pub finish :
    (HashMap FileInformation → List FileInformation → List Effect → Option Closed)
    → Bool
    → ℕ
    → List ℕ
    → HashMap FileInformation
    → List FileInformation
    → List Effect
    → Stats
    → Option FileInformation
    → Option Closed
finish next do_preserve k ks h ret log st none = none
finish next do_preserve k ks h ret log st (some fi) =
    if unfinished fi st
    then some (record { ret = ret; hash = h; queue = k ∷ ks; log = log })
    else next (remove k h) (ret ++ record fi { crc = st.crc } ∷ [])
        (log ++ finish_effects do_preserve k fi)

-- `stats` is libdtn's table: finishing a file clears its slot. `none` is the panic on a file number
-- that is not in the map. The loop stops at the first file that is not finished.
unfoldable pub close_file :
    Bool
    → List ℕ
    → HashMap Stats
    → HashMap FileInformation
    → List FileInformation
    → List Effect
    → Option Closed
close_file do_preserve [] stats h ret log =
    some (record { ret = ret; hash = h; queue = []; log = log })
close_file do_preserve (k ∷ ks) stats h ret log = elim (stats k) [
  | none ↦ some (record { ret = ret; hash = h; queue = k ∷ ks; log = log })
  | some st ↦
      finish (close_file do_preserve ks (remove k stats)) do_preserve k ks h ret log st (h k)
]
