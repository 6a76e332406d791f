-- ===== src/Import/Media/Kept.antt =====
-- What an import does to the media files of the target.
use anki.Prelude.{
  ℕ, true, false, List, [], ◌∷◌, ◌≡◌, refl, ap, sym, ◌∙◌, non_empty, Bool-cases, inl, inr,
  if◌then◌else◌, arith,
}
use anki.Prelude.Text.{Text, same, same_iff}
use anki.Utils.{split_fields}
use anki.Import.Media.{
  Contents, Files, data_of, has_file, put_file, Piece, between, found, MediaEnv, write_dst_media,
  local_name, repl, substitute, transform_names, munge_fields, munge_media,
}

data_of-put_file :
    (fname name : Text) (contents : Contents) (files : Files)
    → data_of name (put_file fname contents files)
      ≡ (if same fname name then contents else data_of name files)
unfolding data_of put_file
data_of-put_file fname name contents [] = refl
data_of-put_file fname name contents ((other, old) ∷ files) = ground (
  arith,
  same_iff other fname,
  same_iff other name,
  same_iff fname name,
  data_of-put_file fname name contents files,
)

data_of_missing :
    (name : Text) (files : Files) → has_file name files ≡ false → data_of name files ≡ []
unfolding data_of has_file
data_of_missing name [] h = refl
data_of_missing name ((other, old) ∷ files) h = ground (arith, h, data_of_missing name files)

module _ (env : MediaEnv) (name : Text) where
  -- The name is the normal form of no name but itself.
  abbrev pub IsOwnForm : Type 0
  IsOwnForm = (other : Text) → env.nfc other ≡ name → other ≡ name

  -- If the file has any bytes, it keeps them.
  abbrev pub Keeps : Files → Files → Type 0
  Keeps files files' =
      non_empty (data_of name files) ≡ true → data_of name files' ≡ data_of name files

  module _ (own : IsOwnForm) where
    write-Keeps :
        (fname : Text) (contents : Contents) (files : Files)
        → data_of fname files ≡ []
        → Keeps files (write_dst_media env fname contents files)
    unfolding write_dst_media
    write-Keeps fname contents files free h = elim (Bool-cases (env.is_writable (env.nfc fname))) [
      | inl e ↦ elim (Bool-cases (same (env.nfc fname) name)) [
        | inl k ↦
            let fname_is = own fname ((same_iff (env.nfc fname) name).0 k) in
            let blank = ap (λ n. data_of n files) (sym fname_is) ∙ free in
            absurd (ground (arith, h, blank))
        | inr k ↦ ground (arith, e, k, data_of-put_file (env.nfc fname) name contents files)
      ]
      | inr e ↦ ground (arith, e)
    ]

    repl-Keeps :
        (mid : ℕ) (match fname : Text) (files : Files)
        → Keeps files (repl env mid match fname files).1
    unfolding repl
    repl-Keeps mid match fname files h =
        let lname = local_name env mid fname in
        let contents = env.src_data fname in
        ground (
          arith,
          data_of_empty (data_of fname files),
          data_of_missing lname files,
          λ (e : data_of fname files ≡ []). write-Keeps fname contents files e h,
          λ (e : data_of lname files ≡ []). write-Keeps lname contents files e h,
        )
      where
        data_of_empty : (xs : List ℕ) → non_empty xs ≡ false → xs ≡ []
        data_of_empty [] e = refl
        data_of_empty (x ∷ xs) e = cc

    Keeps-trans :
        (files files' files'' : Files)
        → Keeps files files'
        → Keeps files' files''
        → Keeps files files''
    Keeps-trans files files' files'' h k e = let first = h e in k (ap non_empty first ∙ e) ∙ first

    substitute-Keeps :
        (mid : ℕ) (pieces : List Piece) (files : Files)
        → Keeps files (substitute env mid pieces files).1
    unfolding substitute
    substitute-Keeps mid [] files = λ e. refl
    substitute-Keeps mid (between text ∷ pieces) files = substitute-Keeps mid pieces files
    substitute-Keeps mid (found match fname ∷ pieces) files =
        let files' = (repl env mid match fname files).1 in
        Keeps-trans files files' (substitute env mid pieces files').1
          (repl-Keeps mid match fname files) (substitute-Keeps mid pieces files')

    transform_names-Keeps :
        (mid : ℕ) (regs : List (Text → List Piece)) (text : Text) (files : Files)
        → Keeps files (transform_names env mid regs text files).1
    unfolding transform_names
    transform_names-Keeps mid [] text files = λ e. refl
    transform_names-Keeps mid (reg ∷ regs) text files =
        let (text', files') = substitute env mid (reg text) files in
        Keeps-trans files files' (transform_names env mid regs text' files').1
          (substitute-Keeps mid (reg text) files) (transform_names-Keeps mid regs text' files')

    munge_fields-Keeps :
        (mid : ℕ) (fields : List Text) (files : Files)
        → Keeps files (munge_fields env mid fields files).1
    unfolding munge_fields
    munge_fields-Keeps mid [] files = λ e. refl
    munge_fields-Keeps mid (field ∷ fields) files =
        let files' = (transform_names env mid env.regexps field files).1 in
        Keeps-trans files files' (munge_fields env mid fields files').1
          (transform_names-Keeps mid env.regexps field files) (munge_fields-Keeps mid fields files')

  -- Importing the media of a note changes no file of the target that has any bytes and whose name is
  -- the normal form of no other name, whatever the note refers to.
  pub munge_media-Keeps :
      (mid : ℕ) (fields_str : Text) (files : Files)
      → IsOwnForm
      → non_empty (data_of name files) ≡ true
      → data_of name (munge_media env mid fields_str files).1 ≡ data_of name files
  unfolding munge_media
  munge_media-Keeps mid fields_str files own h =
      munge_fields-Keeps own mid (split_fields fields_str) files h
