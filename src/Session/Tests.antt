-- ===== src/Session/Tests.antt =====
-- Inputs at which the theorems about the session are applied.
use escp.Base.{◌≡◌, refl, true, false, [], ◌∷◌, ◌++◌, List, some, none, arith, Text, codes}
use escp.Base.Int.{ℤ, pos}
use escp.Wire.Flat.{Flatbuffers, Push, found}
use escp.Wire.SessionInit.{create_session_init, read_session_init}
use escp.Session.{Offer, describe, Args, accept, refuses_port}
use escp.Session.Reply.{frame, read_reply, reply, connect, read_reply-reply}
use escp.Str.Decimal.{to_string}
use escp.Session.Handshake.{Agrees, handshake-Agrees, accept-refuses_port}

-- A crate that keeps the pushes as they came.
abbrev pushes : Flatbuffers
pushes = record {
  Table = λ E. List (Push E);
  end_table = λ ps. ps;
  get = λ t s o. found s o t;
  get-end_table = λ ps s o d. refl;
}

abbrev four : List ℤ
four = pos 1 ∷ pos 2 ∷ pos 3 ∷ pos 4 ∷ []

abbrev offer : Offer
offer = record {
  version_major = pos 0;
  version_minor = pos 9;
  session_id = 77;
  start_port = 1232;
  escp_portrange = 10;
  do_verbose = false;
  crypto_key = four ++ (four ++ (four ++ four));
  io_engine = pos 1;
  nodirect = false;
  do_hash = 1;
  thread_count = pos 4;
  block_sz = pos 1048576;
  do_compression = true;
  do_sparse = false;
  do_preserve = true;
  log_file = none;
  ip_mode = 0;
  bind_interface = none;
}

abbrev args : Args
args = record {
  session_id = 0;
  verbose_logging = false;
  port_start = pos 0;
  port_end = pos 0;
  compression = false;
  sparse = false;
  do_preserve = false;
  do_crypto = false;
  crypto_key = [];
  io_engine_tx = pos 0;
  block = pos 0;
  thread_count = pos 0;
  do_hash = 0;
  nodirect = true;
  ip_mode = 0;
}

handshake_example :
    (b : Args) × (accept
        (read_session_init pushes (create_session_init pushes {E = Unit} (describe offer)))
        args
      ≡ some b)
    × Agrees offer args b
handshake_example = handshake-Agrees pushes Unit offer args (omega arith) (omega arith)

port_example : refuses_port (pos 60000) (handshake_example.0) ≡ false
port_example =
    accept-refuses_port
      (read_session_init pushes (create_session_init pushes {E = Unit} (describe offer))) args
      (handshake_example.0) 60000 (handshake_example.1)

abbrev reply_table : List (Push Unit)
reply_table = create_session_init pushes (reply (pos 0) (pos 9) 1240)

reply_example :
    (buf : Text) × ((read_reply (frame (b'!' ∷ []) ++ codes "more") ≡ some (buf, codes "more"))
      × (connect (read_session_init pushes reply_table)
          ≡ record { port_text = to_string 1240; active_port = 1240; warns = false }))
reply_example =
    read_reply-reply pushes Unit (λ t. b'!' ∷ []) (λ s. reply_table) (pos 0) (pos 9) 1240
      (codes "more") (omega arith) refl (omega arith)
