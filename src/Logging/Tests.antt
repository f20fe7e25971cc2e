-- ===== src/Logging/Tests.antt =====
-- An error that libdtn reports, and the start of the log.
use escp.Base.{
  ◌≡◌, refl, true, false, List, [], ◌∷◌, none, some, Text, codes, arith, ◌==◌, if◌then◌else◌,
}
use escp.Base.Int.{pos}
use escp.Str.{trim_end, before, is_space}
use escp.Wire.Flat.{Flatbuffers, Push, found}
use escp.Wire.LogList.{LogList, create_log_list, read_log_list}
use escp.Sender.Alerts.{of_file, show_list}
use escp.Sender.Check.{Checksums}
use escp.Logging.{Act, sends, no_line, line, clog_turn}
use escp.Logging.Report.{report_text}
use escp.Logging.Relay.{err_line, clog_turn-show_list}
use escp.Logging.Start.{System, Starts, initialize_logging, initialize_logging-Starts}

abbrev kept : Flatbuffers
kept = record {
  Table = λ E. List (Push E);
  end_table = λ ps. ps;
  get = λ t s o. found s o t;
  get-end_table = λ ps s o d. refl;
}

abbrev trouble : Text
trouble = codes "Writing File"

abbrev notes : Checksums
notes k = if k == 7 then some (pos 0, codes "notes.txt") else none

clog_turn_example :
    (l : LogList) × ((acts : List Act) × ((clog_turn true no_line
            (line (err_line (report_text b' ' (b'3' ∷ []) 28 7 trouble)))
          ≡ some (sends l ∷ acts))
        × (show_list notes (read_log_list kept (create_log_list kept {E = Unit} l)) ≡ record {
          shown = of_file trouble (codes "notes.txt") (pos 28) ∷ [];
          panicked = false;
        })))
unfolding trim_end before is_space
clog_turn_example =
    clog_turn-show_list b' ' (b'3' ∷ []) 28 7 trouble notes kept Unit (pos 0) (codes "notes.txt")
      (λ q. omega (arith, q)) (λ q. omega (arith, q))
      ((λ q. omega (arith, q)), ((λ q. omega (arith, q)), tt)) (omega arith) (omega arith) refl
      (λ q. cc) refl refl

abbrev no_syslog : System
no_syslog = record { has_syslog = false; open_log = λ p. some 9 }

start_example : Starts (codes "LOCAL3") (initialize_logging no_syslog true (codes "LOCAL3"))
start_example = initialize_logging-Starts no_syslog true (codes "LOCAL3")
