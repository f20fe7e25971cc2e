-- ===== src/Session/Handshake.antt =====
-- What the receiver has after the handshake.
use escp.Base.{
  ℕ, zero, suc, ◌||◌, Bool, if◌then◌else◌, ◌≤◌, ◌<◌, ◌≡◌, refl, ap, subst, inl, inr, true, false,
  List, Option, none, some, take, length, ltb, arith, Bool-cases, some_inj, none-ne-some,
}
use escp.Base.Int.{ℤ, pos, negsuc, ltb_ℤ, ◌+ℤ◌}
use escp.Wire.Flat.{Flatbuffers}
use escp.Wire.SessionInit.{
  SessionInit, create_session_init, read_session_init, read_session_init-create_session_init,
}
use escp.Session.{Offer, describe, Args, or_default, copy_key, plain_args, accept, refuses_port}

-- A number above 0 that was given, or else the receiver's own.
abbrev given_or : ℤ → ℤ → ℤ
given_or (pos zero) own = own
given_or (pos (suc n)) own = pos (suc n)
given_or (negsuc n) own = own

-- What the receiver has after the handshake, by the sender's offer and its own arguments before: the
-- sender's settings; compression, sparse files and verbose messages also where it had them already;
-- and its own engine and the default range of ports where the sender gives none above 0.
pub record Agrees (o : Offer) (own a : Args) : Type 0 where
  pub session : a.session_id ≡ o.session_id
  pub key : a.crypto_key ≡ take 16 o.crypto_key
  pub encrypted : a.do_crypto ≡ true
  pub block : a.block ≡ o.block_sz
  pub threads : a.thread_count ≡ o.thread_count
  pub hash : a.do_hash ≡ o.do_hash
  pub direct : a.nodirect ≡ o.nodirect
  pub preserve : a.do_preserve ≡ o.do_preserve
  pub family : a.ip_mode ≡ o.ip_mode
  pub port : a.port_start ≡ pos o.start_port
  pub range : a.port_end ≡ given_or (pos o.escp_portrange) (pos 10)
  pub engine : a.io_engine_tx ≡ given_or o.io_engine own.io_engine_tx
  pub compressed : a.compression ≡ (o.do_compression || own.compression)
  pub holes : a.sparse ≡ (o.do_sparse || own.sparse)
  pub verbose : a.verbose_logging ≡ (o.do_verbose || own.verbose_logging)

accept-describe :
    (o : Offer) (a : Args)
    → 16 ≤ length o.crypto_key
    → 0 < o.start_port
    → (b : Args) × (accept (describe o) a ≡ some b) × Agrees o a b
unfolding accept describe copy_key plain_args or_default
accept-describe o a h p = (
  record (plain_args (describe o) a) { crypto_key = take 16 o.crypto_key; do_crypto = true },
  rw long_enough refl,
  record {
    session = refl;
    key = refl;
    encrypted = refl;
    block = refl;
    threads = refl;
    hash = refl;
    direct = refl;
    preserve = refl;
    family = refl;
    port = port_kept;
    range = kept (pos o.escp_portrange) (pos 10);
    engine = kept o.io_engine a.io_engine_tx;
    compressed = either o.do_compression a.compression;
    holes = either o.do_sparse a.sparse;
    verbose = either o.do_verbose a.verbose_logging;
  },
)
  where
    kept : (z own : ℤ) → or_default z own ≡ given_or z own
    kept (pos zero) own = refl
    kept (pos (suc n)) own = ground arith
    kept (negsuc n) own = ground arith

    either : (b own : Bool) → (if b then true else own) ≡ (b || own)
    either true own = refl
    either false own = refl

    long_enough : ltb (length o.crypto_key) 16 ≡ false
    long_enough = ground (arith, h)

    port_kept : or_default (pos o.start_port) (pos 1232) ≡ pos o.start_port
    port_kept = ground (arith, p)

-- For a key of sixteen bytes or more and a port above 0, the receiver, whatever its arguments were,
-- accepts the description that it reads from the sender's message, and then has the sender's settings:
-- the session, key, block size, threads, hashing, direct mode, preservation, address family and start
-- port are the sender's; compression, sparse files and verbose messages are on if either side has
-- them on; and the engine and the range of ports are the sender's if above 0, else its own engine
-- and 10.
pub handshake-Agrees :
    (fb : Flatbuffers) (E : Type 0) (o : Offer) (a : Args)
    → 16 ≤ length o.crypto_key
    → 0 < o.start_port
    → (b : Args) × (accept (read_session_init fb (create_session_init fb {E = E} (describe o))) a
        ≡ some b)
      × Agrees o a b
handshake-Agrees fb E o a h p =
    rw (read_session_init-create_session_init fb E (describe o)) (accept-describe o a h p)

room_above : (port : ℕ) (z : ℤ) → ltb_ℤ (pos port +ℤ or_default z (pos 10)) (pos port) ≡ false
unfolding ◌+ℤ◌ or_default
room_above port (pos n) = ground arith
room_above port (negsuc n) = ground arith

copy_key-port_end :
    (a b : Args) (key : Option (List ℤ)) → copy_key a key ≡ some b → a.port_end ≡ b.port_end
unfolding copy_key
copy_key-port_end a b none q = absurd (none-ne-some q)
copy_key-port_end a b (some key) q = elim (Bool-cases (ltb (length key) 16)) [
  | inl e ↦ absurd (none-ne-some (rw e at q))
  | inr e ↦ ap (λ (x : Args). x.port_end) (some_inj (rw e at q))
]

accept-port_end :
    (helo : SessionInit) (a b : Args)
    → accept helo a ≡ some b
    → or_default helo.port_end (pos 10) ≡ b.port_end
unfolding accept plain_args
accept-port_end helo a b q = elim (Bool-cases helo.do_crypto) [
  | inl e ↦ copy_key-port_end (plain_args helo a) b helo.crypto_key (rw (e, accept) at q)
  | inr e ↦ ap (λ (x : Args). x.port_end) (some_inj (rw (e, accept) at q))
]

-- Once the receiver has accepted a description, whatever it says of the range, the test refuses no
-- port: it compares the port with itself.
pub accept-refuses_port :
    (helo : SessionInit) (a b : Args) (port : ℕ)
    → accept helo a ≡ some b
    → refuses_port (pos port) b ≡ false
unfolding refuses_port
accept-refuses_port helo a b port q =
    subst (λ z. ltb_ℤ (pos port +ℤ z) (pos port) ≡ false) (accept-port_end helo a b q)
      (room_above port helo.port_end)
