-- ===== src/Receiver/Loop/Accounts.antt =====
-- The account of the finished files, from their closing to the report to the sender.
use escp.Base.{ℕ, ◌+◌, ◌≡◌, true, List, [], ◌∷◌, ◌++◌, Option, none, some, length, arith}
use escp.Wire.FileSpec.{File}
use escp.Receiver.State.{Receiver}
use escp.Receiver.Opening.Answers.{slots}
use escp.Receiver.Loop.{
  Loop, Turn, goes_on, finished, exits, panics, Output, file_stats, error_stat, keepalive,
}

files_in : Option (List File) → ℕ
files_in none = 0
files_in (some fs) = length fs

-- The finished files that the messages report.
unfoldable pub reported : List Output → ℕ
unfolding files_in
reported [] = 0
reported (file_stats m ∷ out) = files_in m.files + reported out
reported (error_stat _ ∷ out) = reported out
reported (keepalive ∷ out) = reported out

-- After `n` reports: as many files were closed as were reported or wait to be, and as many count as
-- opened as libdtn has taken, by the calls of `file_addfile` that found a slot.
abbrev pub IsAccounted : ℕ → Loop → Type 0
IsAccounted n s =
    (s.receiver.file_count_out ≡ n + length s.receiver.files_complete)
    × (s.receiver.file_count_in ≡ length (slots s.io.log))

-- What a turn owes: the account after its reports. When the loop ends, the sender has said that it is
-- done, and every file that libdtn has taken is reported or waits to be.
abbrev pub Owes : ℕ → Turn → Type 0
Owes n (goes_on s out) = IsAccounted (n + reported out) s
Owes n (finished s out) =
    IsAccounted (n + reported out) s
    × (s.receiver.transfer_complete ≡ true)
    × (length (slots s.io.log) ≡ n + reported out + length s.receiver.files_complete)
Owes n exits = Unit
Owes n panics = Unit

pub reported-append : (a b : List Output) → reported (a ++ b) ≡ reported a + reported b
unfolding reported
reported-append [] b = omega arith
reported-append (file_stats m ∷ a) b = omega (arith, reported-append a b)
reported-append (error_stat m ∷ a) b = reported-append a b
reported-append (keepalive ∷ a) b = reported-append a b

-- Two receivers with the same account.
abbrev SameAccount : Receiver → Receiver → Type 0
SameAccount r r' =
    (r'.file_count_out ≡ r.file_count_out)
    × (r'.files_complete ≡ r.files_complete)
    × (r'.file_count_in ≡ r.file_count_in)
