-- ===== src/Sender/Walk/Example.antt =====
-- A walk on a small disk: a directory with one file, which refuses the direct mode.
use escp.Base.{
  none-ne-some, some_inj, ℕ, ◌≡◌, ◌≢◌, ◌⊎◌, refl, sym, ap, inl, inr, Bool, true, false, List, [],
  ◌∷◌, Option, none, some, Text, text_eq, ◌==◌,
}
use escp.Base.Int.{pos}
use escp.Str.{starts_with, split_on}
use escp.Str.Paths.{join}
use escp.Receiver.Opening.{Opened, opened, failed, einval, emfile}
use escp.Sender.Batch.{Stat, Entry}
use escp.Sender.Files.{Disk, listing, Item, Opener, enters, announces, waits, handle}
use escp.Sender.Walk.{
  settle, enter, entry_items, Reader, Walk, Step, handles, sends, enters_dir, reads, closes_dir,
  Steps, none_left, then_step, start, Finished,
}
use escp.Sender.Walk.Found.{Tree, Shows}

abbrev pub stat_of : ℕ → Stat
stat_of mode = record {
  st_size = pos 5;
  st_mode = mode;
  st_uid = 0;
  st_gid = 0;
  atim_sec = pos 0;
  atim_nano = pos 0;
  mtim_sec = pos 0;
  mtim_nano = pos 0;
}

abbrev pub dir_path : Text
dir_path = b'/' ∷ b'd' ∷ []

abbrev pub no_direct : Bool → Bool → Opened
no_direct true is_dir = failed einval
no_direct false true = opened 3
no_direct false false = opened 4

abbrev stat_by : Bool → Option Stat
stat_by true = some (stat_of 16877)
stat_by false = some (stat_of 33188)

abbrev entries_by : Bool → List (Text × ℕ)
entries_by true = (b'.' ∷ [], 4) ∷ (b'f' ∷ [], 8) ∷ []
entries_by false = []

abbrev pub tree : Tree
unfolding text_eq
tree = record {
  stat_at = λ p. stat_by (text_eq p dir_path);
  entries = λ p. entries_by (text_eq p dir_path);
}

abbrev in_place : Text → Option Text
in_place [] = none
in_place (c ∷ p) = some (c ∷ p)

in_place-ne-some : (p : Text) → in_place p ≢ some []
in_place-ne-some [] = λ q. none-ne-some q
in_place-ne-some (c ∷ p) = λ q. not_nil (some_inj q)
  where
    not_nil : c ∷ p ≡ [] → ⊥
    not_nil q = cc

abbrev pub disk : Disk
unfolding text_eq
disk = record {
  canonicalize = in_place;
  open_file = λ n p direct. no_direct direct (text_eq p dir_path);
  fstat = λ n fd. stat_by (fd == 3);
  open_dir = λ n p. listing (entries_by (text_eq p dir_path));
}

opened_inj : {a b : ℕ} → opened a ≡ opened b → a ≡ b
opened_inj q = cc

stats_by :
    (direct is_dir : Bool) (fd : ℕ)
    → no_direct direct is_dir ≡ opened fd
    → stat_by (fd == 3) ≡ stat_by is_dir
stats_by true is_dir fd q = absurd (differ q)
  where
    differ : failed einval ≡ opened fd → ⊥
    differ x = cc
stats_by false true fd q = ap (λ n. stat_by (n == 3)) (sym (opened_inj q))
stats_by false false fd q = ap (λ n. stat_by (n == 3)) (sym (opened_inj q))

refuses_by :
    (direct is_dir : Bool) (errno : ℕ)
    → no_direct direct is_dir ≡ failed errno
    → (errno ≡ emfile) ⊎ ((errno ≡ einval) × (direct ≡ true))
refuses_by true is_dir errno q = inr (sym (inj q), refl)
  where
    inj : failed einval ≡ failed errno → einval ≡ errno
    inj x = cc
refuses_by false true errno q = absurd (differ q)
  where
    differ : opened 3 ≡ failed errno → ⊥
    differ x = cc
refuses_by false false errno q = absurd (differ q)
  where
    differ : opened 4 ≡ failed errno → ⊥
    differ x = cc

pub disk-Shows : Shows tree disk
unfolding disk tree text_eq
disk-Shows = record {
  paths = in_place-ne-some;
  stats = λ n p direct fd q. stats_by direct (text_eq p dir_path) fd q;
  refuses = λ n p direct errno q. refuses_by direct (text_eq p dir_path) errno q;
  lists = λ n p. inl refl;
}

abbrev pub the_dir : Item
the_dir = record { prefix = b'/' ∷ []; filename = b'd' ∷ []; destname = [] }

abbrev pub the_file : Item
the_file = record { prefix = b'/' ∷ []; filename = b'd' ∷ b'/' ∷ b'f' ∷ []; destname = [] }

abbrev pub direct : Opener
direct = record { direct_mode = true; calls = 0 }

abbrev pub the_entry : Entry
the_entry = record { fi = the_file.filename; fino = 1; st = stat_of 33188 }

abbrev pub at_end : Walk
at_end = record {
  files = [];
  dirs = [];
  readers = [];
  numbered = [];
  sent = the_entry ∷ [];
  fino = 1;
  tail = 2;
  cleanup = 2;
  exited = false;
}

abbrev walk_0 : Walk
walk_0 = record {
  files = the_dir ∷ [];
  dirs = [];
  readers = [];
  numbered = [];
  sent = [];
  fino = 0;
  tail = 1;
  cleanup = 1;
  exited = false;
}

abbrev walk_1 : Walk
walk_1 = record walk_0 { files = []; dirs = (b'/' ∷ [], b'd' ∷ []) ∷ []; cleanup = 2 }

abbrev reading : List (Text × ℕ) → Reader
reading es = record { prefix = b'/' ∷ []; filename = b'd' ∷ []; left = es }

abbrev walk_2 : Walk
walk_2 = record walk_1 { dirs = []; readers = reading (entries_by true) ∷ [] }

abbrev walk_3 : Walk
walk_3 = record walk_2 { readers = reading ((b'f' ∷ [], 8) ∷ []) ∷ [] }

abbrev walk_4 : Walk
walk_4 = record walk_2 { readers = reading [] ∷ []; files = the_file ∷ [] }

abbrev walk_5 : Walk
walk_5 = record walk_4 { files = []; numbered = the_entry ∷ []; fino = 1 }

abbrev walk_6 : Walk
walk_6 = record walk_5 { numbered = []; sent = the_entry ∷ [] }

enters-ne-waits : (p f : Text) → enters p f ≢ waits
enters-ne-waits p f = λ e. cc

announces-ne-waits : (name : Text) (st : Stat) (fd : ℕ) → announces name st fd ≢ waits
announces-ne-waits name st fd = λ e. cc

first-Step : Step disk true walk_0 walk_1
unfolding disk text_eq handle settle starts_with split_on
first-Step = handles walk_0 [] [] the_dir direct 1 refl (enters-ne-waits (b'/' ∷ []) (b'd' ∷ []))

second-Step : Step disk true walk_1 walk_2
unfolding disk text_eq enter join starts_with
second-Step = enters_dir walk_1 [] [] (b'/' ∷ [], b'd' ∷ []) 0 refl

third-Step : Step disk true walk_2 walk_3
unfolding entry_items
third-Step =
    reads walk_2 [] [] (reading (entries_by true)) (b'.' ∷ [], 4) ((b'f' ∷ [], 8) ∷ []) refl refl

fourth-Step : Step disk true walk_3 walk_4
unfolding entry_items starts_with
fourth-Step = reads walk_3 [] [] (reading ((b'f' ∷ [], 8) ∷ [])) (b'f' ∷ [], 8) [] refl refl

fifth-Step : Step disk true walk_4 walk_5
unfolding disk text_eq handle settle starts_with split_on
fifth-Step =
    handles walk_4 [] [] the_file direct 1 refl
      (announces-ne-waits the_file.filename (stat_of 33188) 4)

sixth-Step : Step disk true walk_5 walk_6
sixth-Step = sends walk_5 [] [] the_entry refl

seventh-Step : Step disk true walk_6 at_end
seventh-Step = closes_dir walk_6 [] [] (reading []) refl refl

pub run : Steps disk true (start (the_dir ∷ [])) at_end
unfolding start
run = then_step first-Step (
    then_step second-Step (
      then_step third-Step (
        then_step fourth-Step (
          then_step fifth-Step
            (then_step sixth-Step (then_step seventh-Step (none_left at_end)))))))

pub at_end-Finished : Finished at_end
at_end-Finished = record { no_files = refl; no_dirs = refl; no_readers = refl; all_sent = refl }
