-- ===== src/Session.antt =====
-- How the two sides agree on a session: the sender's description (`escp_sender`, src/escp/sender.rs)
-- and what the receiver takes from it (`initialize_receiver`, src/escp/receiver.rs).
pub mod Handshake
pub mod Reply
mod Tests
use escp.Base.{
  ℕ, ◌+◌, Bool, true, false, List, [], ◌∷◌, Option, none, some, Text, take, length, ltb,
  if◌then◌else◌,
}
use escp.Base.Int.{ℤ, pos, ltb_ℤ, ◌+ℤ◌}
use escp.Wire.SessionInit.{SessionInit, session_init_default}

-- What the sender knows when it builds the message.
pub record Offer : Type 0 where
  pub version_major : ℤ
  pub version_minor : ℤ
  pub session_id : ℕ
  pub start_port : ℕ
  pub escp_portrange : ℕ
  pub do_verbose : Bool
  pub crypto_key : List ℤ
  pub io_engine : ℤ
  pub nodirect : Bool
  pub do_hash : ℕ
  pub thread_count : ℤ
  pub block_sz : ℤ
  pub do_compression : Bool
  pub do_sparse : Bool
  pub do_preserve : Bool
  pub log_file : Option Text
  pub ip_mode : ℕ
  pub bind_interface : Option Text

pub describe : Offer → SessionInit
describe o = record session_init_default {
  version_major = o.version_major;
  version_minor = o.version_minor;
  session_id = o.session_id;
  port_start = pos o.start_port;
  port_end = pos o.escp_portrange;
  do_verbose = o.do_verbose;
  do_crypto = true;
  crypto_key = some o.crypto_key;
  io_engine = o.io_engine;
  no_direct = o.nodirect;
  do_hash = o.do_hash;
  thread_count = o.thread_count;
  block_sz = o.block_sz;
  do_compression = o.do_compression;
  do_sparse = o.do_sparse;
  do_preserve = o.do_preserve;
  log_file = o.log_file;
  ip_mode = o.ip_mode;
  bind_interface = o.bind_interface;
}

-- The receiver's arguments that the message sets, and the local variables for the ports.
pub record Args : Type 0 where
  pub session_id : ℕ
  pub verbose_logging : Bool
  pub port_start : ℤ
  pub port_end : ℤ
  pub compression : Bool
  pub sparse : Bool
  pub do_preserve : Bool
  pub do_crypto : Bool
  pub crypto_key : List ℤ
  pub io_engine_tx : ℤ
  pub block : ℤ
  pub thread_count : ℤ
  pub do_hash : ℕ
  pub nodirect : Bool
  pub ip_mode : ℕ

or_default : ℤ → ℤ → ℤ
or_default z d = if ltb_ℤ (pos 0) z then z else d

-- Sixteen bytes are copied; with no key the program panics, and it would read past the end of a
-- shorter one: `none`.
copy_key : Args → Option (List ℤ) → Option Args
copy_key a none = none
copy_key a (some key) =
    if ltb (length key) 16
    then none
    else some (record a { crypto_key = take 16 key; do_crypto = true })

plain_args : SessionInit → Args → Args
plain_args helo a = record a {
  session_id = helo.session_id;
  verbose_logging = if helo.do_verbose then true else a.verbose_logging;
  port_start = or_default helo.port_start (pos 1232);
  port_end = or_default helo.port_end (pos 10);
  compression = if helo.do_compression then true else a.compression;
  sparse = if helo.do_sparse then true else a.sparse;
  do_preserve = helo.do_preserve;
  io_engine_tx = or_default helo.io_engine a.io_engine_tx;
  block = helo.block_sz;
  thread_count = helo.thread_count;
  do_hash = helo.do_hash;
  nodirect = helo.no_direct;
  ip_mode = helo.ip_mode;
}

pub accept : SessionInit → Args → Option Args
accept helo a =
    if helo.do_crypto
    then copy_key (plain_args helo a) helo.crypto_key
    else some (plain_args helo a)

-- The test that is to refuse a port outside the range.
pub refuses_port : ℤ → Args → Bool
refuses_port port a = ltb_ℤ (port +ℤ a.port_end) port
