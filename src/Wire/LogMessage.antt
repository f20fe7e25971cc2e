-- ===== src/Wire/LogMessage.antt =====
-- `Message` as a table (src/escp/message.rs).
use escp.Base.{ℕ, ◌≡◌, refl, Bool, false, List, [], ◌∷◌, map, Option, none, some, Text}
use escp.Base.Int.{ℤ, pos}
use escp.Wire.Flat.{
  Push, push_slot, push_slot_if_some, signed, flag, Flatbuffers, as_signed, as_flag, as_str,
  as_vector, of_str, of_vector, signed_lem, flag_lem, str_lem, vector_lem,
}

-- The fields, as the accessors present them.
pub record LogMessage : Type 0 where
  pub is_error : Bool
  pub is_warning : Bool
  pub type_ : ℤ
  pub code : Option (List ℤ)
  pub message : Option Text

-- `..Default::default()`
abbrev pub message_default : LogMessage
message_default = record {
  is_error = false;
  is_warning = false;
  type_ = pos 0;
  code = none;
  message = none;
}

pub data LogMessageField : Type 0 where
  vt_is_error : LogMessageField
  vt_is_warning : LogMessageField
  vt_type_ : LogMessageField
  vt_code : LogMessageField
  vt_message : LogMessageField

-- The `VT_` offsets.
abbrev message_slot : LogMessageField → ℕ
message_slot vt_is_error = 4
message_slot vt_is_warning = 6
message_slot vt_type_ = 8
message_slot vt_code = 10
message_slot vt_message = 12

-- The `add_` functions of the builder.
abbrev add_message : {E : Type 0} → LogMessageField → LogMessage → Push E
add_message vt_is_error args =
    push_slot (message_slot vt_is_error) (flag args.is_error) (flag false)
add_message vt_is_warning args =
    push_slot (message_slot vt_is_warning) (flag args.is_warning) (flag false)
add_message vt_type_ args = push_slot (message_slot vt_type_) (signed args.type_) (signed (pos 0))
add_message vt_code args = push_slot_if_some (message_slot vt_code) (of_vector args.code)
add_message vt_message args = push_slot_if_some (message_slot vt_message) (of_str args.message)

-- The order in which `create` adds.
abbrev message_order : List LogMessageField
message_order = vt_message ∷ vt_code ∷ vt_type_ ∷ vt_is_warning ∷ vt_is_error ∷ []

module _ (fb : Flatbuffers) {E : Type 0} where
  unfoldable pub create_message : LogMessage → fb.Table E
  create_message args = fb.end_table (map (λ f. add_message f args) message_order)

  -- The accessors.
  pub read_message : fb.Table E → LogMessage
  read_message t = record {
    is_error = as_flag (fb.get t (message_slot vt_is_error) (some (flag false)));
    is_warning = as_flag (fb.get t (message_slot vt_is_warning) (some (flag false)));
    type_ = as_signed (fb.get t (message_slot vt_type_) (some (signed (pos 0))));
    code = as_vector (fb.get t (message_slot vt_code) none);
    message = as_str (fb.get t (message_slot vt_message) none);
  }

module _ (fb : Flatbuffers) (E : Type 0) where
  -- Every log message, built with `create`, reads back as it was, for any tables of the crate.
  pub read_message-create_message :
      (a : LogMessage) → read_message fb (create_message fb {E = E} a) ≡ a
  unfolding read_message create_message
  read_message-create_message a =
      rw
        (
          fb.get-end_table (map (λ f. add_message f a) message_order) (message_slot vt_is_error)
              (some (flag false)) refl,
          flag_lem E a.is_error,
          fb.get-end_table (map (λ f. add_message f a) message_order) (message_slot vt_is_warning)
              (some (flag false)) refl,
          flag_lem E a.is_warning,
          fb.get-end_table (map (λ f. add_message f a) message_order) (message_slot vt_type_)
              (some (signed (pos 0))) refl,
          signed_lem E a.type_,
          fb.get-end_table (map (λ f. add_message f a) message_order) (message_slot vt_code) none
              refl,
          vector_lem E a.code,
          fb.get-end_table (map (λ f. add_message f a) message_order) (message_slot vt_message) none
              refl,
          str_lem E a.message,
        )
        refl
