-- ===== src/Sender/Sources/Tests.antt =====
-- Where `/d/f` lands, and a file list of two lines.
use escp.Base.{ℕ, ◌≡◌, ◌≢◌, ap, refl, [], ◌∷◌, ◌++◌, none, some, Text, codes, false, arith, text_eq}
use escp.Str.{starts_with}
use escp.Str.Paths.Canonical.{IsName, IsCanonical, root, below}
use escp.Sender.Files.{Item}
use escp.Sender.Sources.{source_items, list_entries, feed_list, item_of}
use escp.Sender.Sources.Landing.{Lands, source_items-Lands}

IsName-one : (c : ℕ) → c ≢ b'/' → c ≢ b'.' → IsName (c ∷ [])
IsName-one c s d = record {
  not_empty = λ q. cc;
  no_slash = (s, tt);
  not_self = λ q. d (ap (head_or 0) q);
  not_parent = λ q. not_longer [] refl (ap drop_one q);
}
  where
    head_or : ℕ → Text → ℕ
    head_or k [] = k
    head_or k (c ∷ t) = c

    drop_one : Text → Text
    drop_one [] = []
    drop_one (c ∷ t) = t

    not_longer : (t : Text) → t ≡ [] → t ≡ b'.' ∷ [] → ⊥
    not_longer t p q = cc

in_d : IsCanonical (b'/' ∷ b'd' ∷ [])
in_d = below root (IsName-one b'd' (λ q. omega (arith, q)) (λ q. omega (arith, q)))

Lands-example :
    (i : Item) × ((source_items some false (b'o' ∷ []) ((b'/' ∷ b'd' ∷ b'/' ∷ b'f' ∷ []) ∷ [])
        ≡ some (i ∷ [], []))
      × Lands (b'/' ∷ b'd' ∷ b'/' ∷ b'f' ∷ []) (b'o' ∷ []) (b'f' ∷ []) i)
Lands-example =
    source_items-Lands some b'/' (b'd' ∷ b'/' ∷ b'f' ∷ []) (b'/' ∷ b'd' ∷ []) (b'f' ∷ [])
      (b'o' ∷ []) refl in_d (IsName-one b'f' (λ q. omega (arith, q)) (λ q. omega (arith, q)))
      (λ q. cc) ((λ q. omega (arith, q)), tt) ((λ q. omega (arith, q)), tt)

two_lines :
    feed_list (list_entries (λ s. none) (codes "/a/b" ++ 13 ∷ 10 ∷ codes "c"))
    ≡ some (
        record { prefix = []; filename = codes "c"; destname = [] }
        ∷ record { prefix = codes "/a"; filename = codes "b"; destname = [] }
        ∷ [])
unfolding feed_list list_entries item_of starts_with text_eq
two_lines = refl
