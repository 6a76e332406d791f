-- ===== src/Import/Media.antt =====
-- The media files of an import, pylib/anki/importing/anki2.py: `_mungeMedia` with its closure `repl`,
-- and `transform_names` of pylib/anki/media.py. The directory of the target is a map from names.
pub mod Kept
use anki.Prelude.{
  ℕ, Bool, true, false, not, ◌||◌, ◌&&◌, Option, none, some, List, [], ◌∷◌, ◌++◌, non_empty,
  if◌then◌else◌,
}
use anki.Prelude.Text.{Text, same}
use anki.Utils.{decimal, join_fields, split_fields}

-- The bytes of a file.
abbrev pub Contents : Type 0
Contents = List ℕ

abbrev pub Files : Type 0
Files = List (Text × Contents)

-- `_dstMediaData`: no bytes for a file that is not there
unfoldable pub data_of : Text → Files → Contents
data_of fname [] = []
data_of fname ((name, contents) ∷ files) = if same name fname then contents else data_of fname files

-- `media.have`
unfoldable pub has_file : Text → Files → Bool
has_file fname [] = false
has_file fname ((name, contents) ∷ files) = same name fname || has_file fname files

unfoldable pub put_file : Text → Contents → Files → Files
put_file fname contents [] = (fname, contents) ∷ []
put_file fname contents ((name, old) ∷ files) =
    let rest = put_file fname contents files in
    if same name fname then (name, contents) ∷ files else (name, old) ∷ rest

-- A text as a regular expression cuts it up: what is between the matches, and each match with the
-- name of the file in it.
pub data Piece : Type 0 where
  between : Text → Piece
  found : Text → Text → Piece

-- What is outside of these functions: `unicodedata.normalize`, `os.path.splitext`, `str.replace`, the
-- matches of the expressions of media.py, whether a name can be written to, and the source's files.
pub record MediaEnv : Type 0 where
  pub nfc : Text → Text
  pub splitext : Text → Text × Text
  pub replace : Text → Text → Text → Text
  pub regexps : List (Text → List Piece)
  pub is_writable : Text → Bool
  pub src_data : Text → Contents

module _ (env : MediaEnv) where
  unfoldable pub write_dst_media : Text → Contents → Files → Files
  write_dst_media fname contents files =
      if env.is_writable (env.nfc fname) then put_file (env.nfc fname) contents files else files

  -- `f"{name}_{mid}{ext}"`
  unfoldable pub local_name : ℕ → Text → Text
  local_name mid fname =
      let (name, ext) = env.splitext fname in name ++ (95 ∷ (decimal mid mid [] ++ ext))

  -- `repl`, at a match and the name in it
  unfoldable pub repl : ℕ → Text → Text → Files → Text × Files
  repl mid match fname files =
      let src_data = env.src_data fname in
      let dst_data = data_of fname files in
      let lname = local_name mid fname in
      if not (non_empty src_data)
      then (match, files)
      else if has_file lname files
      then (env.replace match fname lname, files)
      else if not (non_empty dst_data) || same src_data dst_data
      then (
        match,
        (if not (non_empty dst_data) then write_dst_media fname src_data files else files),
      )
      else (env.replace match fname lname, write_dst_media lname src_data files)

  -- `re.sub`, with `repl` for each match
  unfoldable pub substitute : ℕ → List Piece → Files → Text × Files
  substitute mid [] files = ([], files)
  substitute mid (between text ∷ pieces) files =
      let (rest, files') = substitute mid pieces files in (text ++ rest, files')
  substitute mid (found match fname ∷ pieces) files =
      let (text, files') = repl mid match fname files in
      let (rest, files'') = substitute mid pieces files' in (text ++ rest, files'')

  unfoldable pub transform_names : ℕ → List (Text → List Piece) → Text → Files → Text × Files
  transform_names mid [] text files = (text, files)
  transform_names mid (reg ∷ regs) text files =
      let (text', files') = substitute mid (reg text) files in transform_names mid regs text' files'

  unfoldable pub munge_fields : ℕ → List Text → Files → List Text × Files
  munge_fields mid [] files = ([], files)
  munge_fields mid (field ∷ fields) files =
      let (field', files') = transform_names mid env.regexps field files in
      let (rest, files'') = munge_fields mid fields files' in (field' ∷ rest, files'')

  unfoldable pub munge_media : ℕ → Text → Files → Text × Files
  munge_media mid fields_str files =
      let (fields, files') = munge_fields mid (split_fields fields_str) files in
      (join_fields fields, files')
