-- ===== src/Sender/Files.antt =====
-- `iterate_file_worker`: what a file worker does with an item of `files_out`.
pub mod Patience
pub mod Descriptors
use escp.Base.{
  ℕ, zero, suc, ◌+◌, ◌*◌, ◌/◌, ◌%◌, ◌≡◌, ◌≢◌, Bool, true, false, not, ◌&&◌, ◌||◌, List, [], ◌∷◌,
  ◌++◌, Option, none, some, Text, text_eq, ◌==◌, if◌then◌else◌,
}
use escp.Str.Paths.{join, path_starts_with}
use escp.Receiver.Opening.{Opened, opened, failed, einval, emfile}
use escp.Sender.Batch.{Stat, Entry}

-- What `opendir` and the calls of `readdir` give: the entries' names and `d_type`, or an errno.
pub data Listing : Type 0 where
  listing : List (Text × ℕ) → Listing
  refused : ℕ → Listing

-- What the system answers: `canonicalize` for a path; `open` to its n-th call with a path and the
-- direct mode; `fstat` for a descriptor after n calls of `open`; `opendir` at its n-th call.
pub record Disk : Type 0 where
  pub canonicalize : Text → Option Text
  pub open_file : ℕ → Text → Bool → Opened
  pub fstat : ℕ → ℕ → Option Stat
  pub open_dir : ℕ → Text → Listing

-- What the channel `files_out` holds.
pub record Item : Type 0 where
  pub prefix : Text
  pub filename : Text
  pub destname : Text

abbrev pub s_ifdir : ℕ
s_ifdir = 16384

abbrev pub s_iflnk : ℕ
s_iflnk = 40960

abbrev pub s_ifreg : ℕ
s_ifreg = 32768

-- `st_mode & S_IFMT`: the four bits from the thirteenth.
unfoldable pub file_type : Stat → ℕ
file_type st = st.st_mode / 4096 % 16 * 4096

abbrev pub dt_dir : ℕ
dt_dir = 4

abbrev pub dt_reg : ℕ
dt_reg = 8

-- What a file worker carries from one item to the next: its `direct_mode`, and the calls of `open`.
pub record Opener : Type 0 where
  pub direct_mode : Bool
  pub calls : ℕ

-- How the rounds of `open` end: with a descriptor, with an errno that ends the worker, or not yet.
pub data Attempt : Type 0 where
  got : ℕ → Attempt
  gives_up : ℕ → Attempt
  tries_again : Attempt

-- The errno is 24: wait, and open again.
unfoldable pub refusal : ℕ → Attempt
refusal errno = if errno == emfile then tries_again else gives_up errno

unfoldable pub by_answer : Opened → Attempt
unfolding refusal
by_answer (opened fd) = got fd
by_answer (failed errno) = refusal errno

unfoldable pub call_open : Opener → Opener
call_open w = record w { calls = suc w.calls }

-- Without the direct mode, now and for the files to come.
unfoldable pub open_plainly : Disk → Text → Opener → Attempt × Opener
unfolding by_answer call_open
open_plainly d path w =
    (by_answer (d.open_file w.calls path false), call_open (record w { direct_mode = false }))

-- EINVAL to a direct opening: at once again, plainly.
unfoldable pub by_direct_answer : Disk → Text → Opener → Opened → Attempt × Opener
unfolding refusal
by_direct_answer d path w (opened fd) = (got fd, w)
by_direct_answer d path w (failed errno) =
    if errno == einval then open_plainly d path w else (refusal errno, w)

-- One round of the loop around `open`.
unfoldable pub open_once : Disk → Text → Opener → Attempt × Opener
unfolding open_plainly by_direct_answer call_open
open_once d path w =
    if w.direct_mode
    then by_direct_answer d path (call_open w) (d.open_file w.calls path true)
    else open_plainly d path w

-- What becomes of an item, with the text and the descriptor of a file that is announced. `waits`: no
-- round has opened it yet.
pub data Verdict : Type 0 where
  ignored : Verdict
  enters : Text → Text → Verdict
  announces : Text → Stat → ℕ → Verdict
  ends_worker : Verdict
  waits : Verdict

-- The name in the message: the destination goes before it, with a NUL between them.
unfoldable pub name_by : Text → Text → Text
name_by [] filename = filename
name_by (c ∷ t) filename = (c ∷ t) ++ 0 ∷ filename

unfoldable pub message_name : Item → Text
unfolding name_by
message_name i = name_by i.destname i.filename

-- A directory, in the recursive mode or without it.
unfoldable pub by_mode : Bool → Item → Verdict
by_mode true i = enters i.prefix i.filename
by_mode false i = ignored

-- The verdict by the file's type, and the calls of `close_fd`.
unfoldable pub by_type : Bool → Item → ℕ → Stat → Verdict × List ℕ
unfolding file_type message_name by_mode
by_type recursive i fd st =
    if file_type st == s_ifdir
    then (by_mode recursive i, fd ∷ [])
    else if file_type st == s_iflnk
    then (ignored, fd ∷ fd ∷ [])
    else if file_type st == s_ifreg
    then (announces (message_name i) st fd, [])
    else (ignored, fd ∷ [])

-- `fstat` failed: the next item, with no call of `close_fd`.
unfoldable pub by_stat : Bool → Item → ℕ → Option Stat → Verdict × List ℕ
unfolding by_type
by_stat recursive i fd none = (ignored, [])
by_stat recursive i fd (some st) = by_type recursive i fd st

-- What a worker did for an item; `opened_fd` is the descriptor it got.
pub record Handled : Type 0 where
  pub verdict : Verdict
  pub closes : List ℕ
  pub opened_fd : Option ℕ
  pub opener : Opener

-- After a round; `again` makes the rounds that are left.
unfoldable pub after_round : Disk → Bool → Item → (Opener → Handled) → Attempt × Opener → Handled
unfolding by_stat
after_round d recursive i again (got fd, w) =
    let (v, closes) = by_stat recursive i fd (d.fstat w.calls fd) in
    record { verdict = v; closes = closes; opened_fd = some fd; opener = w }
after_round d recursive i again (gives_up errno, w) = record {
  verdict = ends_worker;
  closes = [];
  opened_fd = none;
  opener = w;
}
after_round d recursive i again (tries_again, w) = again w

-- The loop around `open`, on fuel.
unfoldable pub open_loop : Disk → Bool → Item → Text → ℕ → Opener → Handled
unfolding open_once after_round
open_loop d recursive i path zero w = record {
  verdict = waits;
  closes = [];
  opened_fd = none;
  opener = w;
}
open_loop d recursive i path (suc n) w =
    after_round d recursive i (open_loop d recursive i path n) (open_once d path w)

unfoldable pub unwrap_or : Option Text → Text → Text
unwrap_or none t = t
unwrap_or (some s) t = s

-- The canonical path; an empty one if there is no such file.
unfoldable pub path_of : Disk → Item → Text
unfolding join unwrap_or
path_of d i = unwrap_or (d.canonicalize (join i.prefix i.filename)) []

-- What a file worker does with an item. The loop that follows on a file that is announced, until
-- libdtn has a slot for it, is not part of this.
unfoldable pub handle : Disk → Bool → ℕ → Item → Opener → Handled
unfolding path_of path_starts_with text_eq open_loop
handle d recursive n i w =
    let path = path_of d i in
    if text_eq path [] || not (path_starts_with path i.prefix)
    then record { verdict = ignored; closes = []; opened_fd = none; opener = w }
    else open_loop d recursive i path n w
