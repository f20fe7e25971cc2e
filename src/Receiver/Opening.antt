-- ===== src/Receiver/Opening.antt =====
-- `add_file`: opening the files of the queue `files_add`.
pub mod Answers
pub mod Outcome
pub mod Total
use escp.Base.{
  ℕ, zero, suc, ◌+◌, Bool, true, false, not, ◌&&◌, ◌||◌, List, [], ◌∷◌, ◌++◌, Option, none, some,
  Text, HashMap, insert, text_eq, ltb, ◌==◌, if◌then◌else◌,
}
use escp.Str.{starts_with, split_once}
use escp.Str.Paths.{join, no_parent}
use escp.Receiver.State.{FileInformation}

-- What `open` gives: a descriptor, or an errno.
pub data Opened : Type 0 where
  opened : ℕ → Opened
  failed : ℕ → Opened

abbrev pub eisdir : ℕ
eisdir = 21

abbrev pub einval : ℕ
einval = 22

abbrev pub emfile : ℕ
emfile = 24

abbrev pub enoent : ℕ
enoent = 2

-- The calls that reach the file system and libdtn, in order; `adds` has the answer with it.
pub data Effect : Type 0 where
  opens : Text → Bool → Effect
  creates_parent : Text → Effect
  preserves : ℕ → FileInformation → Effect
  adds : ℕ → ℕ → Bool → Effect

-- What the system answers: `open` to its n-th call with a path and the direct mode, `file_addfile`
-- after its n-th call (does it find a slot); and the errno that is left from before when the n-th call
-- of `open` gives the descriptor 0, which `add_file` takes for an error. When it finds none, `add_file` returns with no error
-- whether or not an I/O thread has finished.
pub record Env : Type 0 where
  pub open_file : ℕ → Text → Bool → Opened
  pub has_slot : ℕ → Bool
  pub stale_errno : ℕ → ℕ
  pub do_preserve : Bool

-- The state that `add_file` carries: the arguments' `nodirect`, and the calls made so far.
pub record Io : Type 0 where
  pub nodirect : Bool
  pub calls : ℕ
  pub log : List Effect

record_call : Effect → Io → Io
record_call e io = record io { calls = suc io.calls; log = io.log ++ e ∷ [] }

-- The text before the first NUL, and up to the next one.
unfoldable pub up_to_nul : Text → Text
up_to_nul s = elim (split_once 0 s) [ none ↦ s | some (a, b) ↦ a ]

-- `fp` and `alt_fp`: a path with a NUL holds a destination and the name to use inside it.
unfoldable pub candidates : Text → Text × Option Text
unfolding join up_to_nul
candidates path = elim (split_once 0 path) [
  | none ↦ (path, none)
  | some (a, b) ↦ (a, some (join a (up_to_nul b)))
]

-- How the rounds for one file end: it was added; it is open and found no slot; it was not opened;
-- `add_file` returns with the errno; or the path has no parent to create, which panics.
pub data Ending : Type 0 where
  added : ℕ → Ending
  no_slot : ℕ → Ending
  put_off : Ending
  fails : ℕ → Ending
  panics : Ending

other_error : ℕ → Ending
other_error errno = if errno == emfile then put_off else fails errno

-- Another path to try after EISDIR.
other_path : Text → Option Text → Option Text
other_path fp none = none
other_path fp (some t) = if text_eq t fp then none else some t

module _ (env : Env) (fi : FileInformation) where
  -- A descriptor is open: `preserve`, if asked for, and `file_addfile`.
  with_fd : ℕ → Io → Ending × Io
  with_fd fd io =
      let kept = if env.do_preserve then record_call (preserves fd fi) io else io in
      let found = env.has_slot kept.calls in
      let io' = record_call (adds fi.fino fd found) kept in
      if found then (added fd, io') else (no_slot fd, io')

  -- EISDIR: the alternative path, if it is another one.
  is_directory : (Text → Io → Ending × Io) → Io → Option Text → Ending × Io
  is_directory again io none = (fails eisdir, io)
  is_directory again io (some t) = again t io

  -- `fd < 1`: a missing directory is made, or the error is looked at.
  not_open : (Text → Io → Ending × Io) → Text → Io → ℕ → Ending × Io
  not_open again fp io errno =
      if errno == enoent
      then (if no_parent fi.path
          then (panics, io)
          else again fp (record_call (creates_parent fi.path) io))
      else (other_error errno, io)

  -- One answer of `open`, to the call before `io.calls`; `again` makes the rounds that are left.
  answer : (Text → Io → Ending × Io) → Text → Option Text → Bool → Io → Opened → Ending × Io
  unfolding is_directory not_open
  answer again fp alt direct io (opened fd) =
      if fd == 0 then not_open again fp io (env.stale_errno io.calls) else with_fd fd io
  answer again fp alt direct io (failed errno) =
      if direct && errno == einval
      then again fp (record io { nodirect = true })
      else if errno == eisdir
      then is_directory again io (other_path fp alt)
      else not_open again fp io errno

  -- `for _ in 1..5`: the rounds left, the path to open and the alternative.
  rounds : ℕ → Option Text → Text → Io → Ending × Io
  rounds zero alt fp io = (put_off, io)
  rounds (suc n) alt fp io =
      let direct = not io.nodirect in
      answer (rounds n alt) fp alt direct (record_call (opens fp direct) io)
        (env.open_file io.calls fp direct)

  -- The four rounds for one file.
  pub open_one : Io → Ending × Io
  open_one io = let (fp, alt) = candidates fi.path in rounds 4 alt fp io

-- What `add_file` returns, with the map, what is left of the queue, and the effects.
pub record Added : Type 0 where
  pub hash : HashMap FileInformation
  pub queue : List ℕ
  pub io : Io
  pub filecount : ℕ
  pub file_error : ℕ

abbrev with_descriptor : ℕ → ℕ → FileInformation → HashMap FileInformation → HashMap FileInformation
with_descriptor k fd fi h = insert k (record fi { fd = fd }) h

-- After the rounds for the file at the front; `rest` goes on with the queue behind it.
pub turn :
    (Io → HashMap FileInformation → ℕ → Option Added)
    → ℕ
    → List ℕ
    → HashMap FileInformation
    → ℕ
    → FileInformation
    → Ending × Io
    → Option Added
turn rest k ks h n fi (added fd, io) = rest io (with_descriptor k fd fi h) (suc n)
turn rest k ks h n fi (no_slot fd, io) = some (record {
  hash = with_descriptor k fd fi h;
  queue = k ∷ ks;
  io = io;
  filecount = n;
  file_error = 0;
})
turn rest k ks h n fi (put_off, io) =
    some (record { hash = h; queue = k ∷ ks; io = io; filecount = n; file_error = 0 })
turn rest k ks h n fi (fails errno, io) =
    some (record { hash = h; queue = k ∷ ks; io = io; filecount = n; file_error = errno })
turn rest k ks h n fi (panics, io) = none

-- The outer loop: it goes on while each turn adds the file at the front. `none` is a panic, also on
-- a file number that is not in the map.
pub add_file : Env → List ℕ → Io → HashMap FileInformation → ℕ → Option Added
add_file env [] io h n =
    some (record { hash = h; queue = []; io = io; filecount = n; file_error = 0 })
add_file env (k ∷ ks) io h n = elim (h k) [
  | none ↦ none
  | some fi ↦ turn (add_file env ks) k ks h n fi (open_one env fi io)
]
