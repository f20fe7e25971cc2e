-- ===== src/Wire/FileSpec/ListTable.antt =====
-- `ESCP_file_list` as a table whose vector holds `File` tables (src/escp/file_spec.rs).
use escp.Base.{ℕ, ◌≡◌, refl, ap, false, List, [], ◌∷◌, map, Option, none, some}
use escp.Wire.Flat.{
  Push, push_slot, push_slot_if_some, flag, Flatbuffers, as_flag, as_str, as_tables, map_option,
  of_str, of_tables, flag_lem, str_lem, tables_lem,
}
use escp.Wire.FileSpec.{File, FileList}
use escp.Wire.FileSpec.FileTable.{create_file, read_file, read_file-create_file}

pub data FileListField : Type 0 where
  vt_root : FileListField
  vt_files : FileListField
  vt_complete : FileListField
  vt_fc_stat : FileListField

-- The `VT_` offsets.
abbrev file_list_slot : FileListField → ℕ
file_list_slot vt_root = 4
file_list_slot vt_files = 6
file_list_slot vt_complete = 8
file_list_slot vt_fc_stat = 10

module _ (fb : Flatbuffers) {E : Type 0} where
  -- The `add_` functions of the builder; the vector is made of the tables of its files.
  unfoldable pub add_file_list : FileListField → FileList → Push (fb.Table E)
  unfolding map_option
  add_file_list vt_root args = push_slot_if_some (file_list_slot vt_root) (of_str args.root)
  add_file_list vt_files args =
      push_slot_if_some (file_list_slot vt_files)
        (of_tables (map_option (map (create_file fb)) args.files))
  add_file_list vt_complete args =
      push_slot (file_list_slot vt_complete) (flag args.complete) (flag false)
  add_file_list vt_fc_stat args =
      push_slot (file_list_slot vt_fc_stat) (flag args.fc_stat) (flag false)

-- The order in which `create` adds.
abbrev file_list_order : List FileListField
file_list_order = vt_files ∷ vt_root ∷ vt_fc_stat ∷ vt_complete ∷ []

module _ (fb : Flatbuffers) {E : Type 0} where
  unfoldable pub create_file_list : FileList → fb.Table (fb.Table E)
  create_file_list args = fb.end_table (map (λ f. add_file_list fb f args) file_list_order)

  -- The accessors.
  pub read_file_list : fb.Table (fb.Table E) → FileList
  read_file_list t = record {
    root = as_str (fb.get t (file_list_slot vt_root) none);
    files = map_option (map (read_file fb)) (as_tables (fb.get t (file_list_slot vt_files) none));
    complete = as_flag (fb.get t (file_list_slot vt_complete) (some (flag false)));
    fc_stat = as_flag (fb.get t (file_list_slot vt_fc_stat) (some (flag false)));
  }

module _ (fb : Flatbuffers) (E : Type 0) where
  read-create_all : (fs : List File) → map (read_file fb) (map (create_file fb {E = E}) fs) ≡ fs
  read-create_all [] = refl
  read-create_all (f ∷ fs) = rw (read_file-create_file fb E f, read-create_all fs) refl

  read-create_files :
      (o : Option (List File))
      → map_option (map (read_file fb)) (map_option (map (create_file fb {E = E})) o) ≡ o
  unfolding map_option
  read-create_files none = refl
  read-create_files (some fs) = ap some (read-create_all fs)

  -- Every file list, built with `create` from the tables of its files, reads back as it was.
  pub read_file_list-create_file_list :
      (l : FileList) → read_file_list fb (create_file_list fb {E = E} l) ≡ l
  unfolding read_file_list create_file_list add_file_list
  read_file_list-create_file_list l =
      rw
        (
          fb.get-end_table (map (λ f. add_file_list fb {E = E} f l) file_list_order) 4 none refl,
          str_lem (fb.Table E) l.root,
          fb.get-end_table (map (λ f. add_file_list fb {E = E} f l) file_list_order) 6 none refl,
          tables_lem (fb.Table E) (map_option (map (create_file fb)) l.files),
          read-create_files l.files,
          fb.get-end_table (map (λ f. add_file_list fb {E = E} f l) file_list_order) 8
              (some (flag false)) refl,
          flag_lem (fb.Table E) l.complete,
          fb.get-end_table (map (λ f. add_file_list fb {E = E} f l) file_list_order) 10
              (some (flag false)) refl,
          flag_lem (fb.Table E) l.fc_stat,
        )
        refl
