-- ===== src/Wire/FileSpec/FileTable.antt =====
-- `File` as a table (src/escp/file_spec.rs).
use escp.Base.{ℕ, ◌≡◌, refl, List, [], ◌∷◌, map, none, some}
use escp.Base.Int.{pos}
use escp.Wire.Flat.{
  Push, push_slot, push_slot_if_some, number, signed, Flatbuffers, as_number, as_signed, as_str,
  of_str, number_lem, signed_lem, str_lem,
}
use escp.Wire.FileSpec.{File}

pub data FileField : Type 0 where
  vt_fino : FileField
  vt_name : FileField
  vt_mode : FileField
  vt_uid : FileField
  vt_gid : FileField
  vt_sz : FileField
  vt_blocks : FileField
  vt_atim_sec : FileField
  vt_atim_nano : FileField
  vt_mtim_sec : FileField
  vt_mtim_nano : FileField
  vt_crc : FileField
  vt_complete : FileField
  vt_errmsg : FileField
  vt_errno : FileField

-- The `VT_` offsets.
abbrev file_slot : FileField → ℕ
file_slot vt_fino = 4
file_slot vt_name = 6
file_slot vt_mode = 8
file_slot vt_uid = 10
file_slot vt_gid = 12
file_slot vt_sz = 14
file_slot vt_blocks = 16
file_slot vt_atim_sec = 18
file_slot vt_atim_nano = 20
file_slot vt_mtim_sec = 22
file_slot vt_mtim_nano = 24
file_slot vt_crc = 26
file_slot vt_complete = 28
file_slot vt_errmsg = 30
file_slot vt_errno = 32

-- The `add_` functions of the builder.
abbrev add_file : {E : Type 0} → FileField → File → Push E
add_file vt_fino args = push_slot (file_slot vt_fino) (number args.fino) (number 0)
add_file vt_name args = push_slot_if_some (file_slot vt_name) (of_str args.name)
add_file vt_mode args = push_slot (file_slot vt_mode) (number args.mode) (number 0)
add_file vt_uid args = push_slot (file_slot vt_uid) (number args.uid) (number 0)
add_file vt_gid args = push_slot (file_slot vt_gid) (number args.gid) (number 0)
add_file vt_sz args = push_slot (file_slot vt_sz) (signed args.sz) (signed (pos 0))
add_file vt_blocks args = push_slot (file_slot vt_blocks) (signed args.blocks) (signed (pos 0))
add_file vt_atim_sec args =
    push_slot (file_slot vt_atim_sec) (signed args.atim_sec) (signed (pos 0))
add_file vt_atim_nano args =
    push_slot (file_slot vt_atim_nano) (signed args.atim_nano) (signed (pos 0))
add_file vt_mtim_sec args =
    push_slot (file_slot vt_mtim_sec) (signed args.mtim_sec) (signed (pos 0))
add_file vt_mtim_nano args =
    push_slot (file_slot vt_mtim_nano) (signed args.mtim_nano) (signed (pos 0))
add_file vt_crc args = push_slot (file_slot vt_crc) (number args.crc) (number 0)
add_file vt_complete args = push_slot (file_slot vt_complete) (number args.complete) (number 0)
add_file vt_errmsg args = push_slot_if_some (file_slot vt_errmsg) (of_str args.errmsg)
add_file vt_errno args = push_slot (file_slot vt_errno) (signed args.errno) (signed (pos 0))

-- The order in which `create` adds.
abbrev file_order : List FileField
file_order =
    vt_mtim_nano ∷ vt_mtim_sec ∷ vt_atim_nano ∷ vt_atim_sec ∷ vt_blocks ∷ vt_sz ∷ vt_fino ∷ vt_errno
    ∷ vt_errmsg ∷ vt_complete ∷ vt_crc ∷ vt_gid ∷ vt_uid ∷ vt_mode ∷ vt_name ∷ []

module _ (fb : Flatbuffers) {E : Type 0} where
  unfoldable pub create_file : File → fb.Table E
  create_file args = fb.end_table (map (λ f. add_file f args) file_order)

  -- The accessors.
  pub read_file : fb.Table E → File
  read_file t = record {
    fino = as_number (fb.get t (file_slot vt_fino) (some (number 0)));
    name = as_str (fb.get t (file_slot vt_name) none);
    mode = as_number (fb.get t (file_slot vt_mode) (some (number 0)));
    uid = as_number (fb.get t (file_slot vt_uid) (some (number 0)));
    gid = as_number (fb.get t (file_slot vt_gid) (some (number 0)));
    sz = as_signed (fb.get t (file_slot vt_sz) (some (signed (pos 0))));
    blocks = as_signed (fb.get t (file_slot vt_blocks) (some (signed (pos 0))));
    atim_sec = as_signed (fb.get t (file_slot vt_atim_sec) (some (signed (pos 0))));
    atim_nano = as_signed (fb.get t (file_slot vt_atim_nano) (some (signed (pos 0))));
    mtim_sec = as_signed (fb.get t (file_slot vt_mtim_sec) (some (signed (pos 0))));
    mtim_nano = as_signed (fb.get t (file_slot vt_mtim_nano) (some (signed (pos 0))));
    crc = as_number (fb.get t (file_slot vt_crc) (some (number 0)));
    complete = as_number (fb.get t (file_slot vt_complete) (some (number 0)));
    errmsg = as_str (fb.get t (file_slot vt_errmsg) none);
    errno = as_signed (fb.get t (file_slot vt_errno) (some (signed (pos 0))));
  }

module _ (fb : Flatbuffers) (E : Type 0) where
  -- Every file entry, built with `create`, reads back as it was, whichever fields have their default.
  pub read_file-create_file : (a : File) → read_file fb (create_file fb {E = E} a) ≡ a
  unfolding read_file create_file
  read_file-create_file a =
      rw
        (
          fb.get-end_table (map (λ f. add_file f a) file_order) (file_slot vt_fino)
              (some (number 0)) refl,
          number_lem E a.fino,
          fb.get-end_table (map (λ f. add_file f a) file_order) (file_slot vt_name) none refl,
          str_lem E a.name,
          fb.get-end_table (map (λ f. add_file f a) file_order) (file_slot vt_mode)
              (some (number 0)) refl,
          number_lem E a.mode,
          fb.get-end_table (map (λ f. add_file f a) file_order) (file_slot vt_uid) (some (number 0))
              refl,
          number_lem E a.uid,
          fb.get-end_table (map (λ f. add_file f a) file_order) (file_slot vt_gid) (some (number 0))
              refl,
          number_lem E a.gid,
          fb.get-end_table (map (λ f. add_file f a) file_order) (file_slot vt_sz)
              (some (signed (pos 0))) refl,
          signed_lem E a.sz,
          fb.get-end_table (map (λ f. add_file f a) file_order) (file_slot vt_blocks)
              (some (signed (pos 0))) refl,
          signed_lem E a.blocks,
          fb.get-end_table (map (λ f. add_file f a) file_order) (file_slot vt_atim_sec)
              (some (signed (pos 0))) refl,
          signed_lem E a.atim_sec,
          fb.get-end_table (map (λ f. add_file f a) file_order) (file_slot vt_atim_nano)
              (some (signed (pos 0))) refl,
          signed_lem E a.atim_nano,
          fb.get-end_table (map (λ f. add_file f a) file_order) (file_slot vt_mtim_sec)
              (some (signed (pos 0))) refl,
          signed_lem E a.mtim_sec,
          fb.get-end_table (map (λ f. add_file f a) file_order) (file_slot vt_mtim_nano)
              (some (signed (pos 0))) refl,
          signed_lem E a.mtim_nano,
          fb.get-end_table (map (λ f. add_file f a) file_order) (file_slot vt_crc) (some (number 0))
              refl,
          number_lem E a.crc,
          fb.get-end_table (map (λ f. add_file f a) file_order) (file_slot vt_complete)
              (some (number 0)) refl,
          number_lem E a.complete,
          fb.get-end_table (map (λ f. add_file f a) file_order) (file_slot vt_errmsg) none refl,
          str_lem E a.errmsg,
          fb.get-end_table (map (λ f. add_file f a) file_order) (file_slot vt_errno)
              (some (signed (pos 0))) refl,
          signed_lem E a.errno,
        )
        refl
