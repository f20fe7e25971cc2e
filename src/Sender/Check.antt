-- ===== src/Sender/Check.antt =====
-- `handle_msg_from_receiver`: comparing the receiver's checksums with the sender's.
pub mod Truth
pub mod Confirms
use Prim.Native.Nat.{bit_and}
use escp.Base.{
  ℕ, suc, ◌+◌, Bool, true, false, not, ◌&&◌, List, [], ◌∷◌, Option, none, some, Text, HashMap,
  insert, remove, ◌==◌, if◌then◌else◌,
}
use escp.Base.Int.{ℤ, pos, negsuc, ltb_ℤ, eqb_ℤ, as_u32}
use escp.Header.{msg_file_stat, msg_keepalive, msg_message}
use escp.Wire.FileSpec.{File, FileList}

-- `fc_hash`: the sender's checksum of a file, -1 as long as it is not known, and the file's name.
abbrev pub Checksums : Type 0
Checksums = HashMap (ℤ × Text)

-- What `recv_timeout` on the channel `fc_out` gives: a file number with its checksum, or an error.
pub data Arrival : Type 0 where
  got : ℕ → ℕ → Arrival
  timed_out : Arrival
  closed : Arrival

-- How the loop for one file ends: with its checksum in the map and the arrivals left; the channel is
-- closed; or it still waits when the arrivals are used up.
pub data Awaited : Type 0 where
  ready : ℤ → Checksums → List Arrival → Awaited
  lost : Awaited
  pending : Awaited

-- A checksum arrives: the name in the map is kept.
note : ℕ → ℕ → Checksums → Option (ℤ × Text) → Checksums
note k crc hm none = insert k (pos crc, []) hm
note k crc hm (some (c, name)) = insert k (pos crc, name) hm

-- The arrivals are looked at when the map has no checksum for the file.
module _ (k : ℕ) where
  receive : (Checksums → Awaited) → List Arrival → Checksums → Arrival → Awaited
  unfolding note
  receive again rest hm (got fino crc) =
      let hm' = note fino crc hm (hm fino) in
      if k == fino then ready (pos crc) hm' rest else again hm'
  receive again rest hm timed_out = again hm
  receive again rest hm closed = lost

  known_or : Awaited → Checksums → List Arrival → Option (ℤ × Text) → Awaited
  known_or other hm arrivals none = other
  known_or other hm arrivals (some (c, name)) =
      if eqb_ℤ c (negsuc 0) then other else ready c hm arrivals

  pub await : List Arrival → Checksums → Awaited
  await [] hm = known_or pending hm [] (hm k)
  await (a ∷ arrivals) hm =
      known_or (receive (await arrivals) arrivals hm a) hm (a ∷ arrivals) (hm k)

-- How a message is dealt with: all files compared (the result 1); a checksum differs, or the channel
-- is closed (both -1); the process exits, or panics; or the loop still waits.
pub data Outcome : Type 0 where
  checked : Checksums → ℕ → List Arrival → Outcome
  mismatch : ℕ → Outcome
  disconnected : Outcome
  exits : Outcome
  panics : Outcome
  waits : Outcome

-- An error that the receiver reports ends the process, once its text and name are read.
receiver_error : Option Text → Option Text → Outcome
receiver_error none name = panics
receiver_error (some errmsg) none = panics
receiver_error (some errmsg) (some name) = exits

-- The comparison; `next` goes on with the entries behind this one.
compare_crc : (Checksums → ℕ → List Arrival → Outcome) → File → ℕ → Awaited → Outcome
compare_crc next e ok (ready c hm arrivals) =
    if as_u32 c == e.crc then next (remove e.fino hm) (suc ok) arrivals else mismatch e.fino
compare_crc next e ok lost = disconnected
compare_crc next e ok pending = waits

-- The receiver confirms an empty file with no number.
unfoldable pub is_empty_file : File → Bool
is_empty_file e = e.fino == 0 && e.crc == 0

check_entry :
    (Checksums → ℕ → List Arrival → Outcome) → File → Checksums → ℕ → List Arrival → Outcome
check_entry next e hm ok arrivals =
    if ltb_ℤ (pos 0) e.errno
    then receiver_error e.errmsg e.name
    else if is_empty_file e
    then next hm (suc ok) arrivals
    else compare_crc next e ok (await e.fino arrivals hm)

pub check_files : List File → Checksums → ℕ → List Arrival → Outcome
check_files [] hm ok arrivals = checked hm ok arrivals
check_files (e ∷ es) hm ok arrivals = check_entry (check_files es) e hm ok arrivals

unfoldable pub check_list : Checksums → ℕ → List Arrival → Option (List File) → Outcome
check_list hm ok arrivals none = panics
check_list hm ok arrivals (some es) = check_files es hm ok arrivals

-- The whole function, with a message of the given type and the table in its body. A `message` ends the
-- process: it prints the receiver's errors and exits, or panics on the way (Alerts).
unfoldable pub handle_msg_from_receiver : ℕ → FileList → Checksums → ℕ → List Arrival → Outcome
handle_msg_from_receiver t body hm ok arrivals =
    if t == msg_file_stat
    then check_list hm ok arrivals body.files
    else if t == msg_keepalive
    then checked hm ok arrivals
    else if bit_and t 0x1f == msg_message
    then exits
    else checked hm ok arrivals
