-- ===== src/Wire/SessionInit.antt =====
-- `Session_Init` as a table (src/escp/session_init.rs).
use escp.Base.{ℕ, ◌≡◌, refl, Bool, false, List, [], ◌∷◌, map, Option, none, some, Text}
use escp.Base.Int.{ℤ, pos}
use escp.Wire.Flat.{
  Push, push_slot, push_slot_if_some, number, signed, flag, Flatbuffers, as_number, as_signed,
  as_flag, as_str, as_vector, of_str, of_vector, number_lem, signed_lem, flag_lem, str_lem,
  vector_lem,
}

-- The fields, as the accessors present them.
pub record SessionInit : Type 0 where
  pub version_major : ℤ
  pub version_minor : ℤ
  pub session_id : ℕ
  pub crypto_key : Option (List ℤ)
  pub do_hash : ℕ
  pub do_crypto : Bool
  pub do_verbose : Bool
  pub do_compression : Bool
  pub do_preserve : Bool
  pub do_sparse : Bool
  pub no_direct : Bool
  pub is_error : Bool
  pub log_file : Option Text
  pub message : Option Text
  pub bind_interface : Option Text
  pub port_start : ℤ
  pub port_end : ℤ
  pub io_engine : ℤ
  pub thread_count : ℤ
  pub block_sz : ℤ
  pub ip_mode : ℕ

-- `..Default::default()`
abbrev pub session_init_default : SessionInit
session_init_default = record {
  version_major = pos 0;
  version_minor = pos 0;
  session_id = 0;
  crypto_key = none;
  do_hash = 0;
  do_crypto = false;
  do_verbose = false;
  do_compression = false;
  do_preserve = false;
  do_sparse = false;
  no_direct = false;
  is_error = false;
  log_file = none;
  message = none;
  bind_interface = none;
  port_start = pos 0;
  port_end = pos 0;
  io_engine = pos 0;
  thread_count = pos 0;
  block_sz = pos 0;
  ip_mode = 0;
}

pub data SessionInitField : Type 0 where
  vt_version_major : SessionInitField
  vt_version_minor : SessionInitField
  vt_session_id : SessionInitField
  vt_crypto_key : SessionInitField
  vt_do_hash : SessionInitField
  vt_do_crypto : SessionInitField
  vt_do_verbose : SessionInitField
  vt_do_compression : SessionInitField
  vt_do_preserve : SessionInitField
  vt_do_sparse : SessionInitField
  vt_no_direct : SessionInitField
  vt_is_error : SessionInitField
  vt_log_file : SessionInitField
  vt_message : SessionInitField
  vt_bind_interface : SessionInitField
  vt_port_start : SessionInitField
  vt_port_end : SessionInitField
  vt_io_engine : SessionInitField
  vt_thread_count : SessionInitField
  vt_block_sz : SessionInitField
  vt_ip_mode : SessionInitField

-- The `VT_` offsets.
abbrev session_init_slot : SessionInitField → ℕ
session_init_slot vt_version_major = 4
session_init_slot vt_version_minor = 6
session_init_slot vt_session_id = 8
session_init_slot vt_crypto_key = 10
session_init_slot vt_do_hash = 12
session_init_slot vt_do_crypto = 14
session_init_slot vt_do_verbose = 16
session_init_slot vt_do_compression = 18
session_init_slot vt_do_preserve = 20
session_init_slot vt_do_sparse = 22
session_init_slot vt_no_direct = 24
session_init_slot vt_is_error = 26
session_init_slot vt_log_file = 28
session_init_slot vt_message = 30
session_init_slot vt_bind_interface = 32
session_init_slot vt_port_start = 34
session_init_slot vt_port_end = 36
session_init_slot vt_io_engine = 38
session_init_slot vt_thread_count = 40
session_init_slot vt_block_sz = 42
session_init_slot vt_ip_mode = 44

-- The `add_` functions of the builder.
abbrev add_session_init : {E : Type 0} → SessionInitField → SessionInit → Push E
add_session_init vt_version_major args =
    push_slot (session_init_slot vt_version_major) (signed args.version_major) (signed (pos 0))
add_session_init vt_version_minor args =
    push_slot (session_init_slot vt_version_minor) (signed args.version_minor) (signed (pos 0))
add_session_init vt_session_id args =
    push_slot (session_init_slot vt_session_id) (number args.session_id) (number 0)
add_session_init vt_crypto_key args =
    push_slot_if_some (session_init_slot vt_crypto_key) (of_vector args.crypto_key)
add_session_init vt_do_hash args =
    push_slot (session_init_slot vt_do_hash) (number args.do_hash) (number 0)
add_session_init vt_do_crypto args =
    push_slot (session_init_slot vt_do_crypto) (flag args.do_crypto) (flag false)
add_session_init vt_do_verbose args =
    push_slot (session_init_slot vt_do_verbose) (flag args.do_verbose) (flag false)
add_session_init vt_do_compression args =
    push_slot (session_init_slot vt_do_compression) (flag args.do_compression) (flag false)
add_session_init vt_do_preserve args =
    push_slot (session_init_slot vt_do_preserve) (flag args.do_preserve) (flag false)
add_session_init vt_do_sparse args =
    push_slot (session_init_slot vt_do_sparse) (flag args.do_sparse) (flag false)
add_session_init vt_no_direct args =
    push_slot (session_init_slot vt_no_direct) (flag args.no_direct) (flag false)
add_session_init vt_is_error args =
    push_slot (session_init_slot vt_is_error) (flag args.is_error) (flag false)
add_session_init vt_log_file args =
    push_slot_if_some (session_init_slot vt_log_file) (of_str args.log_file)
add_session_init vt_message args =
    push_slot_if_some (session_init_slot vt_message) (of_str args.message)
add_session_init vt_bind_interface args =
    push_slot_if_some (session_init_slot vt_bind_interface) (of_str args.bind_interface)
add_session_init vt_port_start args =
    push_slot (session_init_slot vt_port_start) (signed args.port_start) (signed (pos 0))
add_session_init vt_port_end args =
    push_slot (session_init_slot vt_port_end) (signed args.port_end) (signed (pos 0))
add_session_init vt_io_engine args =
    push_slot (session_init_slot vt_io_engine) (signed args.io_engine) (signed (pos 0))
add_session_init vt_thread_count args =
    push_slot (session_init_slot vt_thread_count) (signed args.thread_count) (signed (pos 0))
add_session_init vt_block_sz args =
    push_slot (session_init_slot vt_block_sz) (signed args.block_sz) (signed (pos 0))
add_session_init vt_ip_mode args =
    push_slot (session_init_slot vt_ip_mode) (number args.ip_mode) (number 0)

-- The order in which `create` adds.
abbrev session_init_order : List SessionInitField
session_init_order =
    vt_session_id ∷ vt_block_sz ∷ vt_thread_count ∷ vt_io_engine ∷ vt_port_end ∷ vt_port_start
    ∷ vt_bind_interface ∷ vt_message ∷ vt_log_file ∷ vt_crypto_key ∷ vt_version_minor
    ∷ vt_version_major ∷ vt_ip_mode ∷ vt_is_error ∷ vt_no_direct ∷ vt_do_sparse ∷ vt_do_preserve
    ∷ vt_do_compression ∷ vt_do_verbose ∷ vt_do_crypto ∷ vt_do_hash ∷ []

module _ (fb : Flatbuffers) {E : Type 0} where
  unfoldable pub create_session_init : SessionInit → fb.Table E
  create_session_init args = fb.end_table (map (λ f. add_session_init f args) session_init_order)

  -- The accessors.
  pub read_session_init : fb.Table E → SessionInit
  read_session_init t = record {
    version_major =
        as_signed (fb.get t (session_init_slot vt_version_major) (some (signed (pos 0))));
    version_minor =
        as_signed (fb.get t (session_init_slot vt_version_minor) (some (signed (pos 0))));
    session_id = as_number (fb.get t (session_init_slot vt_session_id) (some (number 0)));
    crypto_key = as_vector (fb.get t (session_init_slot vt_crypto_key) none);
    do_hash = as_number (fb.get t (session_init_slot vt_do_hash) (some (number 0)));
    do_crypto = as_flag (fb.get t (session_init_slot vt_do_crypto) (some (flag false)));
    do_verbose = as_flag (fb.get t (session_init_slot vt_do_verbose) (some (flag false)));
    do_compression = as_flag (fb.get t (session_init_slot vt_do_compression) (some (flag false)));
    do_preserve = as_flag (fb.get t (session_init_slot vt_do_preserve) (some (flag false)));
    do_sparse = as_flag (fb.get t (session_init_slot vt_do_sparse) (some (flag false)));
    no_direct = as_flag (fb.get t (session_init_slot vt_no_direct) (some (flag false)));
    is_error = as_flag (fb.get t (session_init_slot vt_is_error) (some (flag false)));
    log_file = as_str (fb.get t (session_init_slot vt_log_file) none);
    message = as_str (fb.get t (session_init_slot vt_message) none);
    bind_interface = as_str (fb.get t (session_init_slot vt_bind_interface) none);
    port_start = as_signed (fb.get t (session_init_slot vt_port_start) (some (signed (pos 0))));
    port_end = as_signed (fb.get t (session_init_slot vt_port_end) (some (signed (pos 0))));
    io_engine = as_signed (fb.get t (session_init_slot vt_io_engine) (some (signed (pos 0))));
    thread_count = as_signed (fb.get t (session_init_slot vt_thread_count) (some (signed (pos 0))));
    block_sz = as_signed (fb.get t (session_init_slot vt_block_sz) (some (signed (pos 0))));
    ip_mode = as_number (fb.get t (session_init_slot vt_ip_mode) (some (number 0)));
  }

module _ (fb : Flatbuffers) (E : Type 0) where
  -- Every session description, built with `create`, reads back as it was, for any tables of the crate.
  pub read_session_init-create_session_init :
      (a : SessionInit) → read_session_init fb (create_session_init fb {E = E} a) ≡ a
  unfolding read_session_init create_session_init
  read_session_init-create_session_init a =
      rw
        (
          fb.get-end_table (map (λ f. add_session_init f a) session_init_order)
              (session_init_slot vt_version_major) (some (signed (pos 0))) refl,
          signed_lem E a.version_major,
          fb.get-end_table (map (λ f. add_session_init f a) session_init_order)
              (session_init_slot vt_version_minor) (some (signed (pos 0))) refl,
          signed_lem E a.version_minor,
          fb.get-end_table (map (λ f. add_session_init f a) session_init_order)
              (session_init_slot vt_session_id) (some (number 0)) refl,
          number_lem E a.session_id,
          fb.get-end_table (map (λ f. add_session_init f a) session_init_order)
              (session_init_slot vt_crypto_key) none refl,
          vector_lem E a.crypto_key,
          fb.get-end_table (map (λ f. add_session_init f a) session_init_order)
              (session_init_slot vt_do_hash) (some (number 0)) refl,
          number_lem E a.do_hash,
          fb.get-end_table (map (λ f. add_session_init f a) session_init_order)
              (session_init_slot vt_do_crypto) (some (flag false)) refl,
          flag_lem E a.do_crypto,
          fb.get-end_table (map (λ f. add_session_init f a) session_init_order)
              (session_init_slot vt_do_verbose) (some (flag false)) refl,
          flag_lem E a.do_verbose,
          fb.get-end_table (map (λ f. add_session_init f a) session_init_order)
              (session_init_slot vt_do_compression) (some (flag false)) refl,
          flag_lem E a.do_compression,
          fb.get-end_table (map (λ f. add_session_init f a) session_init_order)
              (session_init_slot vt_do_preserve) (some (flag false)) refl,
          flag_lem E a.do_preserve,
          fb.get-end_table (map (λ f. add_session_init f a) session_init_order)
              (session_init_slot vt_do_sparse) (some (flag false)) refl,
          flag_lem E a.do_sparse,
          fb.get-end_table (map (λ f. add_session_init f a) session_init_order)
              (session_init_slot vt_no_direct) (some (flag false)) refl,
          flag_lem E a.no_direct,
          fb.get-end_table (map (λ f. add_session_init f a) session_init_order)
              (session_init_slot vt_is_error) (some (flag false)) refl,
          flag_lem E a.is_error,
          fb.get-end_table (map (λ f. add_session_init f a) session_init_order)
              (session_init_slot vt_log_file) none refl,
          str_lem E a.log_file,
          fb.get-end_table (map (λ f. add_session_init f a) session_init_order)
              (session_init_slot vt_message) none refl,
          str_lem E a.message,
          fb.get-end_table (map (λ f. add_session_init f a) session_init_order)
              (session_init_slot vt_bind_interface) none refl,
          str_lem E a.bind_interface,
          fb.get-end_table (map (λ f. add_session_init f a) session_init_order)
              (session_init_slot vt_port_start) (some (signed (pos 0))) refl,
          signed_lem E a.port_start,
          fb.get-end_table (map (λ f. add_session_init f a) session_init_order)
              (session_init_slot vt_port_end) (some (signed (pos 0))) refl,
          signed_lem E a.port_end,
          fb.get-end_table (map (λ f. add_session_init f a) session_init_order)
              (session_init_slot vt_io_engine) (some (signed (pos 0))) refl,
          signed_lem E a.io_engine,
          fb.get-end_table (map (λ f. add_session_init f a) session_init_order)
              (session_init_slot vt_thread_count) (some (signed (pos 0))) refl,
          signed_lem E a.thread_count,
          fb.get-end_table (map (λ f. add_session_init f a) session_init_order)
              (session_init_slot vt_block_sz) (some (signed (pos 0))) refl,
          signed_lem E a.block_sz,
          fb.get-end_table (map (λ f. add_session_init f a) session_init_order)
              (session_init_slot vt_ip_mode) (some (number 0)) refl,
          number_lem E a.ip_mode,
        )
        refl
