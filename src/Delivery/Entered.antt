-- ===== src/Delivery/Entered.antt =====
-- What the entries of a file list leave in the receiver's map and queue.
use escp.Base.{
  ℕ, ◌≡◌, ◌≢◌, refl, ap, sym, ◌∙◌, Bool, true, false, List, [], ◌∷◌, ◌++◌, map, append_assoc,
  append-nil, some, Text, HashMap, All, insert, insert_self, insert_ne,
}
use escp.Base.Sort.{EachOnce}
use escp.Receiver.State.{FileInformation, Receiver}
use escp.Receiver.Entries.{known, or_default, from_spec, spec_entry, spec_entries}
use escp.Sender.Batch.{Entry, file_args}
use escp.Sender.Batch.InOrder.{fino_of, numbers}

module _ (preserve : Bool) (root : Text) where
  abbrev pub updated : Entry → Receiver → FileInformation
  updated e r = from_spec root e.fi (file_args preserve e) (known e.fino r.files_hash)

  entered_one : Entry → Receiver → Receiver
  entered_one e r = record r {
    files_hash = insert e.fino (updated e r) r.files_hash;
    files_add = r.files_add ++ e.fino ∷ [];
  }

-- With its name and number, the entry of a file never panics.
spec_entry-file_args :
    (preserve : Bool) (root : Text) (e : Entry) (r : Receiver)
    → spec_entry root (file_args preserve e) r ≡ some (entered_one preserve root e r)
unfolding spec_entry entered_one file_args
spec_entry-file_args true root e r = refl
spec_entry-file_args false root e r = refl

module _ (preserve : Bool) (root : Text) where
  -- Each file is queued in order, and its entry brought up to date; nothing else changes.
  pub record Entered (files : List Entry) (r u : Receiver) : Type 0 where
    pub queued : u.files_add ≡ r.files_add ++ numbers files
    pub entered : All (λ e. u.files_hash e.fino ≡ some (updated preserve root e r)) files
    pub others : (k : ℕ) → All (λ e. fino_of e ≢ k) files → u.files_hash k ≡ r.files_hash k
    pub closing : u.files_close ≡ r.files_close

  -- The other entries are brought up to date as if this one had not come before them.
  updated-entered_one :
      (e : Entry) (r : Receiver) (h : HashMap FileInformation) (es : List Entry)
      → All (λ d. fino_of d ≢ e.fino) es
      → All (λ d. h d.fino ≡ some (updated preserve root d (entered_one preserve root e r))) es
      → All (λ d. h d.fino ≡ some (updated preserve root d r)) es
  unfolding known entered_one
  updated-entered_one e r h [] n a = tt
  updated-entered_one e r h (d ∷ es) (x, n) (y, a) = (
    y
        ∙ ap (λ o. some (from_spec root d.fi (file_args preserve d) (or_default o)))
            (insert_ne e.fino d.fino (updated preserve root e r) r.files_hash (λ q. x (sym q))),
    updated-entered_one e r h es n a,
  )

  pub spec_entries-Entered :
      (files : List Entry) (r : Receiver)
      → EachOnce fino_of files
      → (u : Receiver) × (spec_entries root (map (file_args preserve) files) r ≡ some u)
        × Entered files r u
  unfolding spec_entries entered_one
  spec_entries-Entered [] r o = (
    r,
    refl,
    record {
      queued = sym (append-nil r.files_add);
      entered = tt;
      others = λ k a. refl;
      closing = refl;
    },
  )
  spec_entries-Entered (e ∷ es) r (n, o) =
      let (u, q, h) = spec_entries-Entered es (entered_one preserve root e r) o in
      (
        u,
        rw (spec_entry-file_args preserve root e r, spec_entries) q,
        record {
          queued = h.queued ∙ append_assoc r.files_add (e.fino ∷ []) (numbers es);
          entered = (
            h.others e.fino n ∙ insert_self e.fino (updated preserve root e r) r.files_hash,
            updated-entered_one e r u.files_hash es n h.entered,
          );
          others = λ k (x, a).
              h.others k a ∙ insert_ne e.fino k (updated preserve root e r) r.files_hash x;
          closing = h.closing;
        },
      )
