-- ===== src/Sender/Batch.antt =====
-- The part of `iterate_files` that gathers opened files and announces them to the receiver.
pub mod InOrder
pub mod Numbering
pub mod Gather
pub mod Gapless
use escp.Base.{
  ℕ, suc, ◌+◌, ◌-◌, Bool, true, false, not, ◌&&◌, List, [], ◌∷◌, ◌++◌, map, Option, none, some,
  Text, HashMap, insert, length, ltb, leb, ◌==◌, if◌then◌else◌,
}
use escp.Base.Int.{ℤ, pos, negsuc, ◌+ℤ◌}
use escp.Base.Sort.{sort_by_key}
use escp.Wire.FileSpec.{File, file_default, FileList, file_list_default}
use escp.Sender.Check.{Checksums}

-- The fields of `stat` that are used.
pub record Stat : Type 0 where
  pub st_size : ℤ
  pub st_mode : ℕ
  pub st_uid : ℕ
  pub st_gid : ℕ
  pub atim_sec : ℤ
  pub atim_nano : ℤ
  pub mtim_sec : ℤ
  pub mtim_nano : ℤ

-- What a file worker sends for a file that it opened.
pub record Entry : Type 0 where
  pub fi : Text
  pub fino : ℕ
  pub st : Stat

-- What `recv_timeout` on `msg_out` gives. At a time-out the sender looks for a message of the receiver.
pub data Received : Type 0 where
  entry : Entry → Received
  timed_out : Received
  closed : Received

-- The variables of the loop; `vec` is the queue, front first.
pub record Batcher : Type 0 where
  pub vec : List Entry
  pub counter : ℕ
  pub counter_max : ℕ
  pub files_sent : ℕ
  pub files_total : ℕ
  pub bytes_total : ℤ
  pub fc_hash : Checksums
  pub do_break : Bool

-- The name of a file joins its checksum, which is -1 when it is not known.
named : Entry → Option (ℤ × Text) → ℤ × Text
named e none = (negsuc 0, e.fi)
named e (some (crc, name)) = (crc, e.fi)

unfoldable pub take_in : Entry → Batcher → Batcher
unfolding named
take_in e s = record s {
  fc_hash = insert e.fino (named e (s.fc_hash e.fino)) s.fc_hash;
  vec = s.vec ++ e ∷ [];
  files_total = suc s.files_total;
  bytes_total = s.bytes_total +ℤ e.st.st_size;
  counter = suc s.counter;
}

-- One round of receiving, with what the channel gives; also what is left in the channel, and if the
-- round ended because no file came in time.
unfoldable pub collect : List Received → Batcher → Batcher × List Received × Bool
collect [] s = (s, [], true)
collect (timed_out ∷ rest) s = (s, rest, true)
collect (closed ∷ rest) s = (record s { do_break = true }, rest, false)
collect (entry e ∷ rest) s =
    let s' = take_in e s in
    let more = collect rest s' in
    if ltb s'.counter_max s'.counter then (record s' { counter_max = 300 }, rest, false) else more

-- The table for a file: the metadata goes with it if it is to be preserved.
unfoldable pub file_args : Bool → Entry → File
file_args true e = record file_default {
  fino = e.fino;
  name = some e.fi;
  sz = e.st.st_size;
  mode = e.st.st_mode;
  uid = e.st.st_uid;
  gid = e.st.st_gid;
  atim_sec = e.st.atim_sec;
  atim_nano = e.st.atim_nano;
  mtim_sec = e.st.mtim_sec;
  mtim_nano = e.st.mtim_nano;
}
file_args false e = record file_default { fino = e.fino; name = some e.fi; sz = e.st.st_size }

-- The files that are announced, those that stay, and `files_sent` after them.
pub record Split : Type 0 where
  pub ready : List Entry
  pub kept : List Entry
  pub sent : ℕ

out_of_turn : ℕ → Entry → Bool
out_of_turn sent e = ltb 0 e.fino && not (e.fino == sent + 1)

add_ready : Entry → Split → Split
add_ready e r = record r { ready = e ∷ r.ready }

-- The loop over the sorted queue, up to the first file that is not the next one.
pub split_ready : ℕ → List Entry → Split
split_ready sent [] = record { ready = []; kept = []; sent = sent }
split_ready sent (e ∷ es) =
    let rest = split_ready (if ltb 0 e.fino then sent + 1 else sent) es in
    if out_of_turn sent e
    then record { ready = []; kept = e ∷ es; sent = sent }
    else add_ready e rest

unfoldable pub announcement : Bool → Text → Bool → List Entry → FileList
announcement preserve dest_path do_break ready = record file_list_default {
  root = some dest_path;
  files = some (map (file_args preserve) ready);
  complete = do_break;
}

-- With nothing to announce, the sorted queue is all that changes. `counter` is never below the number
-- of files announced.
unfoldable pub send_ready : Bool → Text → Batcher → Split → List Entry → Batcher × Option FileList
send_ready preserve dest_path s r [] = (record s { vec = r.kept; files_sent = r.sent }, none)
send_ready preserve dest_path s r (e ∷ es) = (
  record s { vec = r.kept; files_sent = r.sent; counter = s.counter - length (e ∷ es) },
  some (announcement preserve dest_path s.do_break (e ∷ es)),
)

-- The second half of a round: sort the queue and announce the files whose turn it is.
unfoldable pub announce : Bool → Text → Batcher → Batcher × Option FileList
announce preserve dest_path s =
    if ltb 0 s.counter
    then (let r = split_ready s.files_sent (sort_by_key (λ e. e.fino) s.vec) in
        send_ready preserve dest_path s r r.ready)
    else (s, none)
