-- ===== src/Receiver/Loop.antt =====
-- The main loop of `escp_receiver`, one turn at a time.
pub mod Accounts
use Prim.Native.Nat.{bit_and}
use escp.Base.{
  ℕ, ◌+◌, ◌-◌, ◌*◌, ◌/◌, Bool, true, false, not, ◌&&◌, ◌||◌, List, [], ◌∷◌, ◌++◌, Option, none,
  some, HashMap, ltb, leb, ◌==◌, length, if◌then◌else◌,
}
use escp.Base.Int.{ℤ, pos}
use escp.Header.{msg_file_spec, msg_compressed, msg_session_complete}
use escp.Wire.FileSpec.{FileList}
use escp.Receiver.State.{FileInformation, Receiver}
use escp.Receiver.Entries.{handle_file_spec}
use escp.Receiver.Opening.{Env, Io, Added, add_file}
use escp.Receiver.Closing.{Stats, Closed, close_file}
use escp.Receiver.Completions.{send_file_completions, send_file_error}

-- A message from the sender: the two numbers of its header; whether zstd gets a compressed body into
-- the buffer of 131072 bytes; and the table in the body, if it is one.
pub record Message : Type 0 where
  pub size : ℕ
  pub typ : ℕ
  pub unpacks : Bool
  pub body : Option FileList

-- What a turn meets: the answers of the file system, libdtn's table when files are closed, a message
-- if one has come, and whether all I/O threads have finished.
pub record World : Type 0 where
  pub env : Env
  pub stats : HashMap Stats
  pub inbox : Option Message
  pub workers_done : Bool

pub data Output : Type 0 where
  file_stats : FileList → Output
  error_stat : FileList → Output
  keepalive : Output

-- The loop's variables; `timeout` paces the loop, in microseconds.
pub record Loop : Type 0 where
  pub receiver : Receiver
  pub io : Io
  pub timeout : ℕ

-- A turn goes on with the messages it sent, ends the loop, ends the process, or panics.
pub data Turn : Type 0 where
  goes_on : Loop → List Output → Turn
  finished : Loop → List Output → Turn
  exits : Turn
  panics : Turn

-- `t &= !msg_compressed` for a compressed body.
clear_compressed : ℕ → ℕ
clear_compressed t = if bit_and t msg_compressed == msg_compressed then t - msg_compressed else t

-- Session complete, as the sender sends it now (0x0001) and in the byte order of older versions.
ends_session : ℕ → ℕ → Bool
ends_session t size = t == 0x430B || (t == msg_session_complete && size == 0)

put_receiver : Loop → Receiver → Loop
put_receiver s r = record s { receiver = r; timeout = 100 }

on_file_spec : Loop → List Output → Option Receiver → Turn
on_file_spec s out none = panics
on_file_spec s out (some r) = goes_on (put_receiver s r) out

is_compressed : ℕ → Bool
is_compressed t = bit_and t msg_compressed == msg_compressed

-- The table of a message, unless it is none, which panics.
on_body : Loop → List Output → Option FileList → Turn
on_body s out none = panics
on_body s out (some l) = on_file_spec s out (handle_file_spec l s.receiver)

-- A message from the sender; a body that cannot be decompressed panics.
on_message : Loop → List Output → Message → Turn
on_message s out m =
    let t = clear_compressed m.typ in
    if is_compressed m.typ && not m.unpacks
    then panics
    else if t == msg_file_spec
    then on_body s out m.body
    else if ends_session t m.size
    then goes_on (put_receiver s (record (s.receiver) { transfer_complete = true })) out
    else goes_on (put_receiver s s.receiver) out

-- `grow` is `(timeout as f64 * 1.337) as u64`.
module _ (grow : ℕ → ℕ) where
  -- Nothing to do: wait longer, with a keepalive when the wait is long.
  pause : Loop → List Output → Turn
  pause s out =
      let t = grow s.timeout in
      if ltb 145000 t
      then goes_on (record s { timeout = if ltb 275000 t then t / 2 else t })
          (out ++ keepalive ∷ [])
      else goes_on (record s { timeout = t }) out

  -- No message: report finished files, or else wait.
  on_silence : World → Loop → List Output → Option (FileList × List FileInformation) → Turn
  on_silence w s out (some (m, rest)) =
      goes_on (put_receiver s (record (s.receiver) { files_complete = rest }))
        (out ++ file_stats m ∷ [])
  on_silence w s out none = if w.workers_done then exits else pause s out

  on_inbox : World → Loop → List Output → Option Message → Turn
  on_inbox w s out (some m) = on_message s out m
  on_inbox w s out none = on_silence w s out (send_file_completions s.receiver.files_complete)

  -- The second half of a turn: end the loop, go round at once, or look for a message.
  decide : World → Loop → List Output → ℕ → Turn
  decide w s out filecount =
      let r = s.receiver in
      if r.transfer_complete && r.file_count_in == r.file_count_out
      then finished s out
      else if ltb 0 filecount
      then goes_on (record s { timeout = 100 }) out
      else on_inbox w s out w.inbox

  -- An error of `add_file` takes the file at the front off the queue and tells the sender.
  report_error : World → Loop → ℕ → ℕ → Turn
  report_error w s filecount file_error = elim s.receiver.files_add [
    | [] ↦ panics
    | k ∷ ks ↦ elim (s.receiver.files_hash k) [
      | none ↦ panics
      | some fi ↦
          decide w (record s { receiver = record (s.receiver) { files_add = ks } })
            (error_stat (send_file_error k fi.path [] (pos file_error)) ∷ []) filecount
    ]
  ]

  after_close : World → Loop → Added → Option Closed → Turn
  after_close w s a none = panics
  after_close w s a (some c) =
      let r = s.receiver in
      let s' : Loop = record s {
        receiver = record r {
          files_hash = c.hash;
          files_add = a.queue;
          files_close = c.queue;
          files_complete = r.files_complete ++ c.ret;
          file_count_in = r.file_count_in + a.filecount;
          file_count_out = r.file_count_out + length c.ret;
        };
        io = a.io;
      } in
      if ltb 0 a.file_error
      then report_error w s' a.filecount a.file_error
      else decide w s' [] a.filecount

  after_add : World → Loop → Option Added → Turn
  after_add w s none = panics
  after_add w s (some a) =
      after_close w s a (close_file w.env.do_preserve s.receiver.files_close w.stats a.hash [] [])

  -- One turn of the loop.
  pub turn : World → Loop → Turn
  turn w s = after_add w s (add_file w.env s.receiver.files_add s.io s.receiver.files_hash 0)
