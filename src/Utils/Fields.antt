-- ===== src/Utils/Fields.antt =====
-- The fields of a note and the text that stores them.
use anki.Prelude.{◌≡◌, List, ◌∷◌}
use anki.Prelude.Text.{Text, AreFree, join_with-split_on, split_on-join_with}
use anki.Utils.{field_separator, join_fields, split_fields}

-- Joining the fields that a text splits into gives the text, and splitting the join of fields gives
-- the fields, if there is a field and none holds the separator.
split_fields-join_fields :
    (s : Text) (field : Text) (fields : List Text)
    → AreFree field_separator (field ∷ fields)
    → (join_fields (split_fields s) ≡ s)
      × (split_fields (join_fields (field ∷ fields)) ≡ field ∷ fields)
unfolding join_fields split_fields
split_fields-join_fields s field fields h =
    (join_with-split_on field_separator s, split_on-join_with field_separator field fields h)
