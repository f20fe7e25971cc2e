-- ===== src/Header.antt =====
-- The six-byte message header and the message types (src/escp.rs).
use escp.Base.{ℕ, ◌+◌, ◌*◌, ◌/◌, ◌%◌, ◌^◌, ◌<◌, ◌≡◌, [], ◌∷◌, ◌++◌, Option, none, some, arith, Text}

abbrev pub msg_session_init : ℕ
msg_session_init = 8

abbrev pub msg_file_spec : ℕ
msg_file_spec = 16

abbrev pub msg_file_stat : ℕ
msg_file_stat = 17

abbrev pub msg_keepalive : ℕ
msg_keepalive = 18

abbrev pub msg_message : ℕ
msg_message = 19

abbrev pub msg_compressed : ℕ
msg_compressed = 128

abbrev pub msg_session_complete : ℕ
msg_session_complete = 1

abbrev pub msg_session_terminate : ℕ
msg_session_terminate = 9

-- `to_be_bytes` of a u16.
abbrev to_be_bytes : ℕ → Text
to_be_bytes w = w / 2 ^ 8 ∷ w % 2 ^ 8 ∷ []

unfoldable pub to_header : ℕ → ℕ → Text
to_header sz typ =
    to_be_bytes (sz / 2 ^ 16 % 2 ^ 16) ++ to_be_bytes (sz % 2 ^ 16) ++ to_be_bytes typ

-- The shifted bytes do not overlap, so `|` is the sum. An index past the end panics: `none`.
unfoldable pub from_header : Text → Option (ℕ × ℕ)
from_header (a ∷ b ∷ c ∷ d ∷ e ∷ f ∷ _) =
    some (a * 2 ^ 24 + b * 2 ^ 16 + c * 2 ^ 8 + d, e * 2 ^ 8 + f)
from_header _ = none

-- A size below 2 ^ 32 and a type below 2 ^ 16 are read back from the header they were written to.
pub from_header-to_header :
    (sz typ : ℕ) → sz < 2 ^ 32 → typ < 2 ^ 16 → from_header (to_header sz typ) ≡ some (sz, typ)
unfolding from_header to_header
from_header-to_header sz typ hs ht = ground arith
