-- ===== src/Receiver/Order.antt =====
-- The two messages about a file may come in either order.
use escp.Base.{
  ℕ, ◌≡◌, refl, ap, sym, ◌∙◌, ◌≢◌, Bool, List, [], ◌∷◌, ◌++◌, Option, none, some, Text, HashMap,
  insert, insert_self, insert_ne, insert-insert, insert_comm, if◌then◌else◌, arith, subst,
  Option-cases, inl, inr,
}
use native.Mathlib.Decide.{ℕ_discrete}
use escp.Base.Int.{ℤ, pos, ltb_ℤ, eqb_ℤ}
use escp.Wire.FileSpec.{File, FileList, file_list_default}
use escp.Receiver.State.{FileInformation, Receiver}
use escp.Receiver.Entries.{
  or_default, known, from_spec, from_completion, spec_entry, completion_entry, spec_entries,
  completion_entries, handle_file_spec,
}

-- On one entry the two updates commute.
sz_comm :
    (a b c : ℤ)
    → (if eqb_ℤ (if ltb_ℤ (pos 0) b then b else c) (pos 0)
        then a
        else (if ltb_ℤ (pos 0) b then b else c))
      ≡ (if ltb_ℤ (pos 0) b then b else (if eqb_ℤ c (pos 0) then a else c))
sz_comm a b c = ground arith

from_spec-from_completion :
    (root name : Text) (e c : File) (fi : FileInformation)
    → from_spec root name e (from_completion c fi) ≡ from_completion c (from_spec root name e fi)
unfolding from_spec from_completion
from_spec-from_completion root name e c fi =
    ap (λ z. record (from_spec root name e (from_completion c fi)) { sz = z })
      (sz_comm e.sz c.sz fi.sz)

known-insert_self :
    (k : ℕ) (fi : FileInformation) (h : HashMap FileInformation) → known k (insert k fi h) ≡ fi
unfolding known
known-insert_self k fi h = ap or_default (insert_self k fi h)

known-insert_ne :
    (k j : ℕ) (fi : FileInformation) (h : HashMap FileInformation)
    → k ≢ j
    → known j (insert k fi h) ≡ known j h
unfolding known
known-insert_ne k j fi h n = ap or_default (insert_ne k j fi h n)

hash_same :
    (f g : FileInformation → FileInformation) (k : ℕ) (h : HashMap FileInformation)
    → ((fi : FileInformation) → f (g fi) ≡ g (f fi))
    → insert k (f (known k (insert k (g (known k h)) h))) (insert k (g (known k h)) h)
      ≡ insert k (g (known k (insert k (f (known k h)) h))) (insert k (f (known k h)) h)
hash_same f g k h c =
    insert-insert k _ _ h
    ∙ ap (λ v. insert k v h)
        (ap f (known-insert_self k _ h) ∙ c (known k h) ∙ ap g (sym (known-insert_self k _ h)))
    ∙ sym (insert-insert k _ _ h)

hash_other :
    (f g : FileInformation → FileInformation) (k l : ℕ) (h : HashMap FileInformation)
    → k ≢ l
    → insert k (f (known k (insert l (g (known l h)) h))) (insert l (g (known l h)) h)
      ≡ insert l (g (known l (insert k (f (known k h)) h))) (insert k (f (known k h)) h)
hash_other f g k l h n =
    ap (λ v. insert k (f v) (insert l (g (known l h)) h)) (known-insert_ne l k _ h (λ e. n (sym e)))
    ∙ insert_comm k l _ _ h n
    ∙ ap (λ v. insert l (g v) (insert k (f (known k h)) h)) (sym (known-insert_ne k l _ h n))

-- The map after both entries, in either order.
hash_comm :
    (f g : FileInformation → FileInformation) (k l : ℕ) (h : HashMap FileInformation)
    → ((fi : FileInformation) → f (g fi) ≡ g (f fi))
    → insert k (f (known k (insert l (g (known l h)) h))) (insert l (g (known l h)) h)
      ≡ insert l (g (known l (insert k (f (known k h)) h))) (insert k (f (known k h)) h)
hash_comm f g k l h c = elim (ℕ_discrete k l) [
  | yes e ↦
      subst
        (λ l.
          insert k (f (known k (insert l (g (known l h)) h))) (insert l (g (known l h)) h)
          ≡ insert l (g (known l (insert k (f (known k h)) h))) (insert k (f (known k h)) h))
        e (hash_same f g k h c)
  | no n ↦ hash_other f g k l h n
]

-- A spec entry for a name, as a total step.
abbrev added : Text → File → Text → Receiver → Receiver
added root e name r = record r {
  files_hash = insert e.fino (from_spec root name e (known e.fino r.files_hash)) r.files_hash;
  files_add = r.files_add ++ e.fino ∷ [];
}

added-completion :
    (root name : Text) (e c : File) (r : Receiver)
    → added root e name (completion_entry c r) ≡ completion_entry c (added root e name r)
unfolding completion_entry
added-completion root name e c r =
    ap
      (λ h. record r {
        files_hash = h;
        files_add = r.files_add ++ e.fino ∷ [];
        files_close = r.files_close ++ c.fino ∷ [];
      })
      (hash_comm (from_spec root name e) (from_completion c) e.fino c.fino r.files_hash
        (from_spec-from_completion root name e c))

-- A completion can be taken past all entries of a file list, panics included.
abbrev after {ℓ} : {A : Type ℓ} → (A → A) → Option A → Option A
after f none = none
after f (some a) = some (f a)

spec_entry-completion :
    (root : Text) (e c : File) (r : Receiver)
    → spec_entry root e (completion_entry c r) ≡ after (completion_entry c) (spec_entry root e r)
unfolding spec_entry
spec_entry-completion root e c r = elim (Option-cases e.name) [
  | inl p ↦ rw (p, spec_entry)
  | inr (name, p) ↦ rw (p, spec_entry) (ap some (added-completion root name e c r))
]

spec_entries-completion :
    (root : Text) (es : List File) (c : File) (r : Receiver)
    → spec_entries root es (completion_entry c r)
      ≡ after (completion_entry c) (spec_entries root es r)
unfolding spec_entries
spec_entries-completion root [] c r = refl
spec_entries-completion root (e ∷ es) c r = elim (Option-cases (spec_entry root e r)) [
  | inl p ↦ rw (spec_entry-completion root e c r, p, spec_entries)
  | inr (s, p) ↦
      rw (spec_entry-completion root e c r, p, spec_entries) (spec_entries-completion root es c s)
]

after-after :
    (c : File) (cs : List File) (o : Option Receiver)
    → after (completion_entries cs) (after (completion_entry c) o)
      ≡ after (completion_entries (c ∷ cs)) o
unfolding completion_entries
after-after c cs none = refl
after-after c cs (some r) = refl

after-nil : (o : Option Receiver) → o ≡ after (completion_entries []) o
unfolding completion_entries
after-nil none = refl
after-nil (some r) = refl

spec_entries-completion_entries :
    (root : Text) (es cs : List File) (r : Receiver)
    → spec_entries root es (completion_entries cs r)
      ≡ after (completion_entries cs) (spec_entries root es r)
unfolding completion_entries
spec_entries-completion_entries root es [] r = after-nil (spec_entries root es r)
spec_entries-completion_entries root es (c ∷ cs) r =
    spec_entries-completion_entries root es cs (completion_entry c r)
    ∙ ap (after (completion_entries cs)) (spec_entries-completion root es c r)
    ∙ after-after c cs (spec_entries root es r)

abbrev pub spec_message : Text → List File → Bool → FileList
spec_message root es done = record file_list_default {
  root = some root;
  files = some es;
  complete = done;
}

abbrev pub completion_message : List File → FileList
completion_message cs = record file_list_default { files = some cs }

infixl 5 ◌>>=◌
abbrev pub ◌>>=◌ : Option Receiver → (Receiver → Option Receiver) → Option Receiver
none >>= f = none
some r >>= f = f r

after->>= :
    (cs : List File) (o : Option Receiver)
    → after (completion_entries cs) o ≡ (o >>= handle_file_spec (completion_message cs))
unfolding handle_file_spec
after->>= cs none = refl
after->>= cs (some r) = refl

-- A message with file entries and a message with completions, whatever files they name, leave the
-- same receiver in either order; if the entries panic, they panic in either order.
pub handle_file_spec_comm :
    (root : Text) (es cs : List File) (done : Bool) (r : Receiver)
    → (handle_file_spec (completion_message cs) r >>= handle_file_spec (spec_message root es done))
      ≡ (handle_file_spec (spec_message root es done) r
          >>= handle_file_spec (completion_message cs))
unfolding handle_file_spec
handle_file_spec_comm root es cs done r =
    spec_entries-completion_entries root es cs r ∙ after->>= cs (spec_entries root es r)
