-- ===== src/Config/Settings.antt =====
-- `start_escp` of src/escp.rs: from the flags to libdtn's arguments.
pub mod Engines
use escp.Base.{
  ℕ, zero, suc, ◌+◌, ◌*◌, ◌≤◌, ◌≡◌, ◌≢◌, refl, sym, ap, ◌∙◌, subst, inl, inr, Bool, true, false,
  List, [], ◌∷◌, ◌++◌, Option, none, some, Text, codes, text_eq, text_eq_iff, Lacks, ◌==◌, ◌⊎◌,
  if◌then◌else◌, arith, Bool-cases, some_inj, none-ne-some,
}
use escp.Base.Int.{ℤ, pos, negsuc, eqb_ℤ, as_i32}
use escp.Str.{strip_prefix}
use escp.Human.{int_from_human, to_lowercase}
use escp.Config.Flags.{Flags}
use escp.Config.{IsUsable, block_size, block_size-IsUsable}

-- The arguments that are set, and the global `verbose_logging`.
pub record Settings : Type 0 where
  pub io_engine_tx : ℤ
  pub io_engine_rx : ℤ
  pub block : ℤ
  pub verbose_logging : ℕ
  pub compression : ℕ
  pub do_preserve : Bool
  pub sparse : ℕ
  pub nodirect : Bool
  pub do_hash : ℕ
  pub recursive : Bool
  pub pacing : ℕ
  pub window : ℕ
  pub mtu : ℕ
  pub thread_count : ℤ
  pub qd : ℕ
  pub do_server : Bool
  pub active_port : ℕ

-- `split("::").next()`
unfoldable pub before_first : Text → Text
before_first [] = []
before_first (c ∷ s) =
    let rest = before_first s in
    elim (strip_prefix (b':' ∷ b':' ∷ []) (c ∷ s)) [ none ↦ c ∷ rest | some t ↦ [] ]

-- `rsplit("::").next()`
unfoldable pub behind_last : Text → Option Text
behind_last [] = none
behind_last (c ∷ s) = elim (behind_last s) [
  | some t ↦ some t
  | none ↦ strip_prefix (b':' ∷ b':' ∷ []) (c ∷ s)
]

unfoldable pub or_whole : Text → Option Text → Text
or_whole s none = s
or_whole s (some t) = t

unfoldable pub after_last : Text → Text
unfolding behind_last or_whole
after_last s = or_whole s (behind_last s)

-- `io_engine_names`, and -1 for another name.
unfoldable pub engine : Text → ℤ
unfolding text_eq
engine s =
    if text_eq s (codes "posix")
    then pos 1
    else if text_eq s (codes "uring")
    then pos 2
    else if text_eq s (codes "dummy")
    then pos 3
    else if text_eq s (codes "shmem")
    then pos 4
    else negsuc 0

count : Bool → ℕ
count true = 1
count false = 0

-- Checksums: `--writechecksum`, then `--nochecksum`.
hash_mode : Bool → Bool → ℕ → ℕ
hash_mode write off d = if off then 0 else if write then 2 else d

-- The arguments, with those that libdtn made; the verbosity is raised twice.
unfoldable pub fill : Settings → Flags → ℤ → ℤ → Settings
unfolding count hash_mode
fill a f tx rx = record {
  io_engine_tx = tx;
  io_engine_rx = rx;
  block = block_size f.block_sz;
  verbose_logging = if f.quiet then 0 else a.verbose_logging + count f.verbose + count f.verbose;
  compression = if f.compression then 1 else a.compression;
  do_preserve = if f.preserve then true else a.do_preserve;
  sparse = if f.sparse then 1 else a.sparse;
  nodirect = f.nodirect;
  do_hash = hash_mode f.writechecksum f.nochecksum a.do_hash;
  recursive = if f.recursive then true else a.recursive;
  pacing = int_from_human f.limit;
  window = 512 * 1024 * 1024;
  mtu = 8204;
  thread_count = as_i32 f.threads;
  qd = 4;
  do_server = f.server;
  active_port = f.escp_port;
}

-- The process exits if one of the engines is unknown.
unfoldable pub with_engines : Settings → Flags → ℤ → ℤ → Option Settings
unfolding fill
with_engines a f tx rx =
    if eqb_ℤ tx (negsuc 0)
    then none
    else if eqb_ℤ rx (negsuc 0)
    then none
    else some (fill a f tx rx)

-- `none` is an exit.
unfoldable pub settings : Settings → Flags → Option Settings
unfolding before_first after_last engine with_engines
settings a f =
    let io_engine = to_lowercase f.io_engine in
    with_engines a f (engine (before_first io_engine)) (engine (after_last io_engine))
