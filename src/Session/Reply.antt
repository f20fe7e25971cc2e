-- ===== src/Session/Reply.antt =====
-- How the messages of the start are framed, and the receiver's reply, which tells the sender the port:
-- `read_stdin_or_mgmt` and the end of `initialize_receiver` (src/escp/receiver.rs), and the part of
-- `escp_sender` (src/escp/sender.rs) that waits for the reply.
use escp.Base.{
  ℕ, zero, suc, ◌-◌, ◌%◌, ◌^◌, ◌<◌, ◌≡◌, refl, ap, ◌∙◌, Bool, true, ◌&&◌, [], ◌∷◌, ◌++◌,
  append_assoc, Option, none, some, Text, length, ◌==◌, if◌then◌else◌, arith,
}
use escp.Base.Int.{ℤ, pos, negsuc, ltb_ℤ, eqb_ℤ, as_i32}
use escp.Str.Decimal.{to_string}
use escp.Header.{to_header, from_header, from_header-to_header, msg_session_init}
use escp.Wire.Flat.{Flatbuffers}
use escp.Wire.SessionInit.{
  SessionInit, session_init_default, create_session_init, read_session_init,
  read_session_init-create_session_init,
}

-- The header and the body, as both sides write them.
pub frame : Text → Text
frame buf = to_header (length buf) msg_session_init ++ buf

-- `read_exact`: the bytes and what is left, or an error at the end of the stream.
with_byte : ℕ → Option (Text × Text) → Option (Text × Text)
with_byte c none = none
with_byte c (some (l, r)) = some (c ∷ l, r)

read_exact : ℕ → Text → Option (Text × Text)
unfolding with_byte
read_exact zero s = some ([], s)
read_exact (suc n) [] = none
read_exact (suc n) (c ∷ s) = with_byte c (read_exact n s)

-- After the header: the receiver wants a session's description, the sender takes any type.
body : (ℕ → Bool) → Text → Option (ℕ × ℕ) → Option (Text × Text)
body accepts s none = none
body accepts s (some (sz, t)) = if accepts t then read_exact sz s else none

after_header : (ℕ → Bool) → Option (Text × Text) → Option (Text × Text)
unfolding body
after_header accepts none = none
after_header accepts (some (b, s)) = body accepts s (from_header b)

-- `read_stdin_or_mgmt`; `none` is a panic.
pub read_init : Text → Option (Text × Text)
unfolding after_header
read_init s = after_header (λ t. t == msg_session_init) (read_exact 6 s)

-- The sender's read; `none` ends the sender.
pub read_reply : Text → Option (Text × Text)
unfolding after_header
read_reply s = after_header (λ t. true) (read_exact 6 s)

-- The receiver's reply, with its version and the port that it was given.
pub reply : ℤ → ℤ → ℕ → SessionInit
reply major minor port = record session_init_default {
  version_major = major;
  version_minor = minor;
  port_start = as_i32 port;
}

-- `x as u16` and `to_string` of a signed number.
as_u16 : ℤ → ℕ
as_u16 (pos n) = n % 2 ^ 16
as_u16 (negsuc n) = 2 ^ 16 - 1 - n % 2 ^ 16

signed_string : ℤ → Text
signed_string (pos n) = to_string n
signed_string (negsuc n) = b'-' ∷ to_string (suc n)

-- What the sender does with the reply: the port it looks up, its active port, and whether it warns of
-- an old receiver.
pub record Connection : Type 0 where
  pub port_text : Text
  pub active_port : ℕ
  pub warns : Bool

pub connect : SessionInit → Connection
unfolding as_u16 signed_string
connect helo = record {
  port_text = signed_string helo.port_start;
  active_port = as_u16 helo.port_start;
  warns = eqb_ℤ helo.version_major (pos 0) && ltb_ℤ helo.version_minor (pos 9);
}

read_exact-append : (a s : Text) → read_exact (length a) (a ++ s) ≡ some (a, s)
unfolding read_exact with_byte
read_exact-append [] s = refl
read_exact-append (c ∷ a) s = rw (read_exact-append a s) refl

read_exact-to_header :
    (n typ : ℕ) (s : Text) → read_exact 6 (to_header n typ ++ s) ≡ some (to_header n typ, s)
unfolding read_exact with_byte to_header
read_exact-to_header n typ s = refl

module _ (accepts : ℕ → Bool) (buf rest : Text) (ok : accepts msg_session_init ≡ true)
    (small : length buf < 2 ^ 32) where
  after_header-frame : after_header accepts (read_exact 6 (frame buf ++ rest)) ≡ some (buf, rest)
  unfolding after_header body frame
  after_header-frame =
      ap (λ s. after_header accepts (read_exact 6 s))
        (append_assoc (to_header (length buf) msg_session_init) buf rest)
      ∙ ap (after_header accepts) (read_exact-to_header (length buf) msg_session_init (buf ++ rest))
      ∙ ap (body accepts (buf ++ rest))
          (from_header-to_header (length buf) msg_session_init small (omega arith))
      ∙ rw ok (read_exact-append buf rest)

-- A description of a session that is shorter than 2 ^ 32 bytes is read from the stream as it was
-- written, and what is behind it is left.
pub read_init-frame :
    (buf rest : Text) → length buf < 2 ^ 32 → read_init (frame buf ++ rest) ≡ some (buf, rest)
unfolding read_init
read_init-frame buf rest small = after_header-frame (λ t. t == msg_session_init) buf rest refl small

connect-reply :
    (major minor : ℤ) (port : ℕ)
    → port < 2 ^ 16
    → connect (reply major minor port) ≡ record {
      port_text = to_string port;
      active_port = port;
      warns = eqb_ℤ major (pos 0) && ltb_ℤ minor (pos 9);
    }
unfolding connect reply as_u16 signed_string
connect-reply major minor port h = rw (small h, low h) refl
  where
    small : port < 2 ^ 16 → as_i32 port ≡ pos port
    small x = ground (arith, x)

    low : port < 2 ^ 16 → port % 2 ^ 16 ≡ port
    low x = omega (arith, x)

-- `finished_data` gives the bytes of a table, and `root` reads a table from bytes.
module _ (fb : Flatbuffers) (E : Type 0) (finished_data : fb.Table E → Text)
    (root : Text → fb.Table E) where
  -- The receiver's port, below 2 ^ 16, reaches the sender: the reply, if the crate reads its
  -- table back from its bytes, and they are fewer than 2 ^ 32, is read from the stream as it was written, and from it the sender has the port to look up
  -- and as its active port, and warns of a version 0.8 or older.
  pub read_reply-reply :
      (major minor : ℤ) (port : ℕ) (rest : Text)
      → port < 2 ^ 16
      → root (finished_data (create_session_init fb (reply major minor port)))
        ≡ create_session_init fb (reply major minor port)
      → length (finished_data (create_session_init fb (reply major minor port))) < 2 ^ 32
      → (buf : Text) × ((read_reply
              (frame (finished_data (create_session_init fb (reply major minor port))) ++ rest)
            ≡ some (buf, rest))
          × (connect (read_session_init fb (root buf)) ≡ record {
            port_text = to_string port;
            active_port = port;
            warns = eqb_ℤ major (pos 0) && ltb_ℤ minor (pos 9);
          }))
  unfolding read_reply
  read_reply-reply major minor port rest h reads small =
      let buf = finished_data (create_session_init fb (reply major minor port)) in
      (
        buf,
        (
          after_header-frame (λ t. true) buf rest refl small,
          rw (reads, read_session_init-create_session_init fb E (reply major minor port))
              (connect-reply major minor port h),
        ),
      )
