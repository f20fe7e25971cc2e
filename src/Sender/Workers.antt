-- ===== src/Sender/Workers.antt =====
-- How the threads of `iterate_file_worker` agree to exit: two counters of directories, a mask with a
-- bit for each worker, and each worker's own `exit_ready`.
pub mod Exit
use escp.Base.{ℕ, suc, ◌+◌, ◌<◌, ◌≡◌, Bool, true, false, ◌&&◌, ◌==◌, if◌then◌else◌}

-- Where a worker stands: at `recv_timeout`; after a time-out with equal counters; with its bit dealt
-- with; out of the loop by the look at the mask; or out of the function by `return`, on an error of
-- `open` or a closed channel.
pub data Place : Type 0 where
  receiving : Place
  quiet : Place
  marked : Place
  left : Place
  returned : Place

-- `tail`, `cleanup` and `mask` are the global atomics, the rest are the workers' own.
pub record Workers : Type 0 where
  pub tail : ℕ
  pub cleanup : ℕ
  pub mask : ℕ → Bool
  pub exit_ready : ℕ → Bool
  pub place : ℕ → Place

abbrev pub put {ℓ} : {A : Type ℓ} → ℕ → A → (ℕ → A) → ℕ → A
put k a f j = if k == j then a else f j

-- `GLOBAL_FILEOPEN_COUNT`
abbrev pub file_open_count : ℕ
file_open_count = 4

-- `mask == (1 << GLOBAL_FILEOPEN_COUNT) - 1`: the identities are the numbers below the count.
unfoldable pub all_set : (ℕ → Bool) → Bool
all_set m = m 0 && m 1 && m 2 && m 3

module _ (k : ℕ) (s : Workers) where
  -- `if !exit_ready`: set the bit, once.
  unfoldable pub mark : Workers
  mark = if s.exit_ready k then record s { place = put k marked s.place } else record s {
    mask = put k true s.mask;
    exit_ready = put k true s.exit_ready;
    place = put k marked s.place;
  }

  -- The look at the mask: out of the loop, or back to receiving.
  unfoldable pub check : Workers
  check = record s { place = put k (if all_set s.mask then left else receiving) s.place }

  -- A file came: a worker that was ready clears its bit.
  unfoldable pub take_file : Workers
  take_file = if s.exit_ready k then record s { mask = put k false s.mask } else s

-- One atomic step of worker `k`, or of a directory worker, in any order.
pub data Step : Workers → Workers → Type 0 where
  times_out :
      (k : ℕ) (s : Workers)
      → k < file_open_count
      → s.place k ≡ receiving
      → s.tail ≡ s.cleanup
      → Step s (record s { place = put k quiet s.place })
  marks : (k : ℕ) (s : Workers) → k < file_open_count → s.place k ≡ quiet → Step s (mark k s)
  checks : (k : ℕ) (s : Workers) → k < file_open_count → s.place k ≡ marked → Step s (check k s)
  takes :
      (k : ℕ) (s : Workers) → k < file_open_count → s.place k ≡ receiving → Step s (take_file k s)
  returns :
      (k : ℕ) (s : Workers)
      → k < file_open_count
      → s.place k ≡ receiving
      → Step s (record s { place = put k returned s.place })
  fails_open :
      (k : ℕ) (s : Workers)
      → k < file_open_count
      → s.place k ≡ receiving
      → Step s (record (take_file k s) { place = put k returned (take_file k s).place })
  finds_directory :
      (k : ℕ) (s : Workers)
      → k < file_open_count
      → s.place k ≡ receiving
      → Step s (record s { cleanup = suc s.cleanup })
  ends_directory : (s : Workers) → Step s (record s { tail = suc s.tail })

pub data Steps : Workers → Workers → Type 0 where
  done : (s : Workers) → Steps s s
  then_steps : {s t u : Workers} → Step s t → Steps t u → Steps s u
