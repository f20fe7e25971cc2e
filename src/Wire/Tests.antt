-- ===== src/Wire/Tests.antt =====
-- Tables built, read back and verified with a crate that keeps the pushes as they came.
use escp.Base.{◌≡◌, refl, true, [], ◌∷◌, List, some, codes}
use escp.Base.Int.{pos, negsuc}
use escp.Wire.Flat.{Flatbuffers, Push, found}
use escp.Wire.FileSpec.{File, file_default, FileList, file_list_default}
use escp.Wire.FileSpec.ListTable.{create_file_list, read_file_list, read_file_list-create_file_list}
use escp.Wire.LogMessage.{LogMessage, message_default}
use escp.Wire.LogList.{LogList}

abbrev kept : Flatbuffers
kept = record {
  Table = λ E. List (Push E);
  end_table = λ ps. ps;
  get = λ t s o. found s o t;
  get-end_table = λ ps s o d. refl;
}

abbrev notes : File
notes = record file_default { fino = 7; name = some (codes "notes.txt"); mode = 420; sz = pos 1200 }

abbrev two_files : FileList
two_files = record file_list_default {
  root = some (codes "/data");
  files = some (notes ∷ record file_default { fino = 8; errno = pos 2; sz = negsuc 0 } ∷ []);
  complete = true;
}

file_list_example : read_file_list kept (create_file_list kept {E = Unit} two_files) ≡ two_files
file_list_example = read_file_list-create_file_list kept Unit two_files

abbrev warning : LogMessage
warning = record message_default { is_warning = true; message = some (codes "slow disk") }

abbrev warnings : LogList
warnings = record { messages = some (warning ∷ warning ∷ []) }
