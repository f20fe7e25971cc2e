-- ===== src/Delivery/Rooted.antt =====
-- Every message of the rounds has files and the root of the destination.
use escp.Base.{
  ℕ, zero, suc, ◌≡◌, refl, inl, inr, Bool, true, false, List, [], ◌∷◌, ◌++◌, Option, none, some,
  Text, All, All-append, ltb, Bool-cases,
}
use escp.Wire.FileSpec.{File, FileList}
use escp.Sender.Batch.{Entry, Received, Batcher, Split, collect, announcement, announce, send_ready}
use escp.Sender.Finish.{
  FileCheck, goes_on, bad, process_exits, process_panics, waits_for_checksum, file_check,
}
use escp.Sender.Rounds.{
  Round, leave_if, told, tell, heard, listen, received, turn, rounds, first_message,
}
use escp.Sender.Transfer.Keeping.{OnTurn, Keeps, after-Keeps}

module _ (preserve : Bool) (dest_path : Text) where
  abbrev pub IsSpec : FileList → Type 0
  IsSpec m = (m.root ≡ some dest_path) × ((es : List File) × (m.files ≡ some es))

  abbrev pub IsRooted : Round → Type 0
  IsRooted r = All IsSpec r.out

  abbrev MaySpec : Option FileList → Type 0
  MaySpec none = Unit
  MaySpec (some m) = IsSpec m

  send_ready-MaySpec :
      (s : Batcher) (r : Split) (es : List Entry)
      → MaySpec ((send_ready preserve dest_path s r es).1)
  unfolding send_ready announcement
  send_ready-MaySpec s r [] = tt
  send_ready-MaySpec s r (e ∷ es) = (refl, (_, refl))

  announce-MaySpec : (s : Batcher) → MaySpec ((announce preserve dest_path s).1)
  unfolding announce
  announce-MaySpec s = elim (Bool-cases (ltb 0 s.counter)) [
    | inl q ↦ rw q (send_ready-MaySpec s _ _)
    | inr q ↦ rw q tt
  ]

  leave_if-IsRooted : (b : Bool) → Keeps IsRooted (leave_if b)
  unfolding leave_if
  leave_if-IsRooted true r h = h
  leave_if-IsRooted false r h = h

  told-IsRooted :
      (r : Round) (p : Batcher × Option FileList)
      → MaySpec p.1
      → IsRooted r
      → OnTurn IsRooted (told r p)
  unfolding told
  told-IsRooted r (s, some m) k h =
      leave_if-IsRooted s.do_break (record r { batch = s; out = r.out ++ m ∷ [] })
        (All-append IsSpec r.out (m ∷ []) h (k, tt))
  told-IsRooted r (s, none) k h = elim (Bool-cases (ltb 0 r.batch.counter)) [
    | inl q ↦ rw q h
    | inr q ↦ rw q (leave_if-IsRooted s.do_break (record r { batch = s }) h)
  ]

  tell-IsRooted : Keeps IsRooted (tell preserve dest_path)
  unfolding tell
  tell-IsRooted r h =
      told-IsRooted r (announce preserve dest_path r.batch) (announce-MaySpec r.batch) h

  heard-IsRooted :
      (r : Round) (c : FileCheck)
      → IsRooted r
      → OnTurn IsRooted (heard (tell preserve dest_path) r c)
  unfolding heard
  heard-IsRooted r (goes_on hm ok arrivals) h = tell-IsRooted _ h
  heard-IsRooted r bad h = tt
  heard-IsRooted r process_exits h = tt
  heard-IsRooted r process_panics h = tt
  heard-IsRooted r waits_for_checksum h = tt

  received-IsRooted :
      (r : Round) (c : Batcher × List Received × Bool)
      → IsRooted r
      → OnTurn IsRooted (received (tell preserve dest_path) r c)
  unfolding received listen
  received-IsRooted r (s, rest, true) h =
      heard-IsRooted (record r { batch = s; channel = rest })
        (file_check (first_message r.inbox) s.fc_hash r.files_ok r.arrivals) h
  received-IsRooted r (s, rest, false) h = tell-IsRooted (record r { batch = s; channel = rest }) h

  pub rounds-IsRooted : (n : ℕ) → Keeps IsRooted (rounds preserve dest_path n)
  unfolding rounds turn
  rounds-IsRooted zero r h = h
  rounds-IsRooted (suc n) r h =
      after-Keeps IsRooted (rounds preserve dest_path n) (turn preserve dest_path r)
        (rounds-IsRooted n) (received-IsRooted r (collect r.channel r.batch) h)
