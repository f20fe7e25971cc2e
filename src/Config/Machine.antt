-- ===== src/Config/Machine.antt =====
-- `load_yaml` of src/escp.rs, and what `start_escp` takes from /etc/escp.conf: the masks for processors
-- and NUMA nodes.
pub mod Masks
use escp.Base.{
  ℕ, zero, suc, ◌+◌, ◌*◌, ◌-◌, ◌^◌, Bool, true, ◌&&◌, List, [], ◌∷◌, length, Option, none, some,
  Text, codes, ltb, leb, ◌==◌, if◌then◌else◌,
}

-- The configuration file: `open` fails, reading it as UTF-8 fails, or its text.
pub data Raw : Type 0 where
  missing : Raw
  unreadable : Raw
  contents : Text → Raw

-- The map that `load_yaml` returns, by its two possible keys (`config_items`).
pub record Conf : Type 0 where
  cpumask : Option Text
  nodemask : Option Text

-- What an element `doc[key]` of a YAML document is `as_str()`.
abbrev pub Doc : Type 0
Doc = Text → Option Text

items_of : Doc → Conf
items_of doc = record { cpumask = doc (codes "cpumask"); nodemask = doc (codes "nodemask") }

-- `&docs[0]`, which panics if there is no document.
first_doc : Option (List Doc) → Option Conf
unfolding items_of
first_doc none = none
first_doc (some []) = none
first_doc (some (doc ∷ docs)) = some (items_of doc)

-- `load` is `YamlLoader::load_from_str`, `none` a panic.
unfoldable pub load_yaml : (Text → Option (List Doc)) → Raw → Option Conf
unfolding first_doc
load_yaml load missing = some (record { cpumask = none; nodemask = none })
load_yaml load unreadable = none
load_yaml load (contents s) = first_doc (load s)

-- The fields of `dtn_args` that the file sets; `cpumask_bytes` has 32 bytes.
pub record Machine : Type 0 where
  pub do_affinity : Bool
  pub cpumask_bytes : List ℕ
  pub cpumask_len : ℕ
  pub nodemask : ℕ

with_byte : ℕ → Option (List ℕ) → Option (List ℕ)
with_byte x none = none
with_byte x (some xs) = some (x ∷ xs)

-- `copy_nonoverlapping(src, dst, n)`; `none` if it leaves one of the two.
unfoldable pub copy_bytes : ℕ → List ℕ → List ℕ → Option (List ℕ)
unfolding with_byte
copy_bytes zero src dst = some dst
copy_bytes (suc n) [] dst = none
copy_bytes (suc n) (x ∷ src) [] = none
copy_bytes (suc n) (x ∷ src) (y ∷ dst) = with_byte x (copy_bytes n src dst)

-- At most 32 bytes of the mask are used.
unfoldable pub mask_len : List ℕ → ℕ
mask_len res = if ltb 31 (length res) then 32 else length res

unfoldable pub with_bytes : Machine → ℕ → Option (List ℕ) → Option Machine
with_bytes a len none = none
with_bytes a len (some bytes) =
    some (record a { do_affinity = true; cpumask_bytes = bytes; cpumask_len = len })

unfoldable pub decoded : Machine → Option (List ℕ) → Option Machine
unfolding copy_bytes mask_len with_bytes
decoded a none = none
decoded a (some res) = with_bytes a (mask_len res) (copy_bytes (mask_len res) res a.cpumask_bytes)

-- `decode` is `hex::decode`; `none` is a panic.
unfoldable pub set_cpumask : (Text → Option (List ℕ)) → Option Text → Machine → Option Machine
unfolding decoded
set_cpumask decode none a = some a
set_cpumask decode (some s) a = decoded a (decode s)

hex_digit : ℕ → Option ℕ
hex_digit c =
    if leb b'0' c && leb c b'9'
    then some (c - b'0')
    else if leb b'a' c && leb c b'f'
    then some (c - b'a' + 10)
    else if leb b'A' c && leb c b'F'
    then some (c - b'A' + 10)
    else none

-- One more digit, unless the value leaves a u64.
shift : ℕ → Option ℕ → Option ℕ
shift n none = none
shift n (some d) = if ltb (n * 16 + d) (2 ^ 64) then some (n * 16 + d) else none

scan_hex : Text → Option ℕ → Option ℕ
unfolding shift hex_digit
scan_hex [] n = n
scan_hex (c ∷ s) none = none
scan_hex (c ∷ s) (some n) = scan_hex s (shift n (hex_digit c))

hex_digits : Text → Option ℕ
unfolding scan_hex
hex_digits [] = none
hex_digits (c ∷ s) = scan_hex (c ∷ s) (some 0)

-- `u64::from_str_radix(s, 16).ok()`
unfoldable pub from_hex : Text → Option ℕ
unfolding hex_digits
from_hex [] = none
from_hex (c ∷ s) = if c == b'+' then hex_digits s else hex_digits (c ∷ s)

with_nodes : Machine → Option ℕ → Option Machine
with_nodes a none = none
with_nodes a (some n) = some (record a { nodemask = n })

set_nodemask : Option Text → Machine → Option Machine
unfolding from_hex with_nodes
set_nodemask none a = some a
set_nodemask (some s) a = with_nodes a (from_hex s)

and_nodes : Option Text → Option Machine → Option Machine
unfolding set_nodemask
and_nodes mask none = none
and_nodes mask (some a) = set_nodemask mask a

-- Both parts, in their order.
unfoldable pub configure : (Text → Option (List ℕ)) → Conf → Machine → Option Machine
unfolding set_cpumask and_nodes
configure decode conf a = and_nodes conf.nodemask (set_cpumask decode conf.cpumask a)
