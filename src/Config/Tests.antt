-- ===== src/Config/Tests.antt =====
-- Settings with two engines, and a processor mask.
use escp.Base.{
  ℕ, zero, suc, List, Option, none, Text, length, take, min, ◌≡◌, refl, ◌++◌, [], ◌∷◌, some, false,
  true, codes,
}
use escp.Base.Int.{pos}
use escp.Human.{to_lowercase}
use escp.Config.Machine.{Machine, missing, set_cpumask, from_hex}
use escp.Config.Machine.Masks.{set_cpumask-fits}
use escp.Config.Start.{start_escp}
use escp.Config.Start.Decided.{IsDecided, start_escp-IsDecided}
use escp.Config.Flags.{Flags, flags_default}
use escp.Config.Settings.{Settings, settings}
use escp.Config.Settings.Engines.{settings-engines, posix, uring, name_of}

abbrev flags : Flags
flags = record flags_default {
  verbose = true;
  recursive = true;
  limit = codes "0";
  block_sz = codes "3G";
  io_engine = codes "Posix::uring";
  writechecksum = true;
}

abbrev zeroed : Settings
zeroed = record {
  io_engine_tx = pos 0;
  io_engine_rx = pos 0;
  block = pos 0;
  verbose_logging = 0;
  compression = 0;
  do_preserve = false;
  sparse = 0;
  nodirect = false;
  do_hash = 0;
  recursive = false;
  pacing = 0;
  window = 0;
  mtu = 0;
  thread_count = pos 0;
  qd = 0;
  do_server = false;
  active_port = 0;
}

lowered : to_lowercase flags.io_engine ≡ name_of posix ++ b':' ∷ b':' ∷ name_of uring
unfolding to_lowercase
lowered = refl

settings_engines_example :
    (s : Settings) × ((settings zeroed flags ≡ some s)
      × ((s.io_engine_tx ≡ pos 1) × (s.io_engine_rx ≡ pos 2)))
settings_engines_example = settings-engines zeroed flags posix uring lowered

abbrev pair : Option ℕ → Option (List ℕ) → Option (List ℕ)
pair none o = none
pair (some b) none = none
pair (some b) (some bs) = some (b ∷ bs)

-- Two digits for each byte.
abbrev decode : Text → Option (List ℕ)
decode [] = some []
decode (c ∷ []) = none
decode (c ∷ d ∷ s) = pair (from_hex (c ∷ d ∷ [])) (decode s)

abbrev zeros : ℕ → List ℕ
zeros zero = []
zeros (suc n) = 0 ∷ zeros n

abbrev bare : Machine
bare = record { do_affinity = false; cpumask_bytes = zeros 32; cpumask_len = 0; nodemask = 0 }

decoded_mask : decode (codes "0fFF") ≡ some (15 ∷ 255 ∷ [])
unfolding from_hex
decoded_mask = refl

cpumask_example :
    (b : Machine) × (set_cpumask decode (some (codes "0fFF")) bare ≡ some b)
    × ((length b.cpumask_bytes ≡ 32)
        × ((b.cpumask_len ≡ min 32 2)
            × ((take b.cpumask_len b.cpumask_bytes ≡ take b.cpumask_len (15 ∷ 255 ∷ []))
                × (b.do_affinity ≡ true))))
cpumask_example = set_cpumask-fits decode (codes "0fFF") (15 ∷ 255 ∷ []) bare decoded_mask refl

-- escp a b host:
abbrev two_sources : Flags
two_sources = record flags { source = codes "a" ∷ codes "b" ∷ codes "host:" ∷ [] }

two_sources-IsDecided :
    IsDecided two_sources (start_escp (λ s. none) decode missing bare zeroed two_sources)
two_sources-IsDecided = start_escp-IsDecided (λ s. none) decode missing bare zeroed two_sources
