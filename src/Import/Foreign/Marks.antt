-- ===== src/Import/Foreign/Marks.antt =====
-- What the cleaning of fields in pylib/anki/importing/noteimp.py does to the marks of HTML.
use anki.Prelude.{ℕ, Bool, false, List, [], ◌∷◌, ◌++◌, ◌≡◌, refl, ◌==◌, Bool-cases, inl, inr, arith}
use anki.Prelude.Text.{Text, codes, split_on, split_on-cons, join_with, join_with-attach}
use anki.Import.Foreign.{clean_field, break_lines}

-- An empty first line.
join_with-blank :
    (sep line : Text) (lines : List Text)
    → join_with sep ([] ∷ line ∷ lines) ≡ sep ++ join_with sep (line ∷ lines)
unfolding join_with
join_with-blank sep line lines = refl

break_lines-split : (s : Text) → break_lines s ≡ join_with (codes "<br>") (split_on 10 s)
unfolding break_lines split_on join_with
break_lines-split [] = refl
break_lines-split (c ∷ s) =
    let (p, ps, e) = split_on-cons 10 s in
    let ih = break_lines-split s in
    elim (Bool-cases (c == 10)) [
      | inl h ↦ ground (arith, h, e, ih)
      | inr h ↦ ground (arith, h, e, ih, join_with-attach (codes "<br>") c p ps)
    ]

-- Where HTML is not allowed, a cleaned field is the lines of the field as they are, with `<br>` between
-- them: no character of a line is escaped or stripped.
pub clean_field-marks :
    (is_space : ℕ → Bool) (field : Text)
    → clean_field is_space false field ≡ join_with (codes "<br>") (split_on 10 field)
unfolding clean_field
clean_field-marks is_space field = break_lines-split field
