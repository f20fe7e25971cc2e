-- ===== src/Wire/LogList.antt =====
-- `Message_list` as a table whose vector holds `Message` tables (src/escp/message.rs).
use escp.Base.{ℕ, ◌≡◌, refl, ap, List, [], ◌∷◌, map, Option, none, some}
use escp.Wire.Flat.{
  Push, push_slot_if_some, Flatbuffers, as_tables, map_option, of_tables, tables_lem,
}
use escp.Wire.LogMessage.{LogMessage, create_message, read_message, read_message-create_message}

-- The fields, as the accessors present them.
pub record LogList : Type 0 where
  pub messages : Option (List LogMessage)

abbrev pub log_list_default : LogList
log_list_default = record { messages = none }

pub data LogListField : Type 0 where
  vt_messages : LogListField

-- The `VT_` offset.
abbrev log_list_slot : LogListField → ℕ
log_list_slot vt_messages = 4

module _ (fb : Flatbuffers) {E : Type 0} where
  -- The `add_` function of the builder; the vector is made of the tables of its messages.
  unfoldable pub add_log_list : LogListField → LogList → Push (fb.Table E)
  unfolding map_option
  add_log_list vt_messages args =
      push_slot_if_some (log_list_slot vt_messages)
        (of_tables (map_option (map (create_message fb)) args.messages))

-- The order in which `create` adds.
abbrev log_list_order : List LogListField
log_list_order = vt_messages ∷ []

module _ (fb : Flatbuffers) {E : Type 0} where
  unfoldable pub create_log_list : LogList → fb.Table (fb.Table E)
  create_log_list args = fb.end_table (map (λ f. add_log_list fb f args) log_list_order)

  -- The accessor.
  pub read_log_list : fb.Table (fb.Table E) → LogList
  read_log_list t = record {
    messages =
        map_option (map (read_message fb)) (as_tables (fb.get t (log_list_slot vt_messages) none));
  }

module _ (fb : Flatbuffers) (E : Type 0) where
  read-create_each :
      (ms : List LogMessage) → map (read_message fb) (map (create_message fb {E = E}) ms) ≡ ms
  read-create_each [] = refl
  read-create_each (m ∷ ms) = rw (read_message-create_message fb E m, read-create_each ms) refl

  read-create_messages :
      (o : Option (List LogMessage))
      → map_option (map (read_message fb)) (map_option (map (create_message fb {E = E})) o) ≡ o
  unfolding map_option
  read-create_messages none = refl
  read-create_messages (some ms) = ap some (read-create_each ms)

  -- Every list of log messages, built with `create` from the tables of its messages, reads back as it
  -- was.
  pub read_log_list-create_log_list :
      (l : LogList) → read_log_list fb (create_log_list fb {E = E} l) ≡ l
  unfolding read_log_list create_log_list add_log_list
  read_log_list-create_log_list l =
      rw
        (
          fb.get-end_table (map (λ f. add_log_list fb {E = E} f l) log_list_order) 4 none refl,
          tables_lem (fb.Table E) (map_option (map (create_message fb)) l.messages),
          read-create_messages l.messages,
        )
        refl
