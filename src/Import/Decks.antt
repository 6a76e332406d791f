-- ===== src/Import/Decks.antt =====
-- `_did` of pylib/anki/importing/anki2.py: the deck of the target for a deck of the source.
pub mod Recorded
use anki.Prelude.{
  ℕ, zero, suc, Bool, true, false, Option, none, some, List, [], ◌∷◌, ◌++◌, non_empty, drop, ◌==◌,
  if◌then◌else◌,
}
use anki.Prelude.Text.{Text, join_with}
use anki.Utils.{decimal}
use anki.Decks.{Backend, DeckDict, colons, path, immediate_parent_path, get, by_name, id_of}

-- The decks that are there, and the map from decks of the source to decks of the target.
pub record DeckImport (S T : Type 0) : Type 0 where
  pub src : S
  pub dst : T
  pub decks : List (ℕ × ℕ)

unfoldable pub mapped : ℕ → List (ℕ × ℕ) → Option ℕ
mapped did [] = none
mapped did ((old, new) ∷ rest) = if old == did then some new else mapped did rest

-- The backends of the two collections, options of decks (of type `C`), the prefix (empty for none)
-- and the time.
pub record DeckEnv (S T C : Type 0) : Type 0 where
  pub src_backend : Backend S
  pub dst_backend : Backend T
  pub get_config : ℕ → S → Option C
  pub update_config : C → T → T
  pub save_deck : DeckDict → T → T
  pub deck_prefix : Text
  pub now : ℕ

-- The name in the target: a prefix takes the place of the top deck.
unfoldable pub target_name : Text → Text → Text
target_name deck_prefix name =
    let tmpname = join_with colons (drop 1 (path name)) in
    if non_empty deck_prefix
    then (if non_empty tmpname then deck_prefix ++ (colons ++ tmpname) else deck_prefix)
    else name

unfoldable pub extend_head : Text → Text → Text
extend_head head parent = if non_empty head then head ++ (colons ++ parent) else parent

module _ {S T C : Type 0} (env : DeckEnv S T C) where
  -- The loop over the parents, where `rec` is `_did`.
  unfoldable pub import_parents :
      (ℕ → DeckImport S T → Option (ℕ × DeckImport S T))
      → Text
      → List Text
      → DeckImport S T
      → Option (DeckImport S T)
  import_parents rec head [] st = some st
  import_parents rec head (parent ∷ parents) st =
      let head' = extend_head head parent in
      let (id_in_src, src) = id_of env.src_backend head' false st.src in
      elim (rec id_in_src (record st { src = src })) [
        | none ↦ none
        | some (did, st') ↦ import_parents rec head' parents st'
      ]

  -- A filtered deck is not imported into.
  unfoldable pub free_name : Text → T → Text
  free_name name dst = elim (by_name env.dst_backend name dst) [
    | none ↦ name
    | some deck ↦ if deck.dyn then name ++ (32 ∷ decimal env.now env.now []) else name
  ]

  -- "pull conf over"; `none` if there are no such options or no such deck
  unfoldable pub copy_config : DeckDict → ℕ → S → T → Option T
  copy_config g newid src dst = elim g.conf [
    | none ↦ some dst
    | some conf_id ↦ if conf_id == 1 then some dst else elim (env.get_config conf_id src) [
      | none ↦ none
      | some conf ↦
          let dst' = env.update_config conf (env.update_config conf dst) in
          elim (get env.dst_backend newid true dst') [
            | none ↦ none
            | some g2 ↦ some (env.save_deck (record g2 { conf = g.conf }) dst')
          ]
    ]
  ]

  unfoldable pub save_desc : DeckDict → ℕ → T → Option T
  save_desc g newid dst = elim (get env.dst_backend newid true dst) [
    | none ↦ none
    | some deck ↦ some (env.save_deck (record deck { desc = g.desc }) dst)
  ]

  -- What `_did` does after the parents.
  unfoldable pub create_local : ℕ → DeckDict → Text → DeckImport S T → Option (ℕ × DeckImport S T)
  create_local did g name st =
      let (newid, dst) = id_of env.dst_backend (free_name name st.dst) false st.dst in
      elim (copy_config g newid st.src dst) [
        | none ↦ none
        | some dst' ↦ elim (save_desc g newid dst') [
          | none ↦ none
          | some dst'' ↦ some (newid, record st { dst = dst''; decks = (did, newid) ∷ st.decks })
        ]
      ]

  -- `_did`. The fuel bounds how deep the calls for parents go.
  unfoldable pub did_of : ℕ → ℕ → DeckImport S T → Option (ℕ × DeckImport S T)
  did_of zero did st = none
  did_of (suc fuel) did st = elim (mapped did st.decks) [
    | some newid ↦ some (newid, st)
    | none ↦ elim (get env.src_backend did true st.src) [
      | none ↦ none
      | some g ↦
          let name = target_name env.deck_prefix g.name in
          elim (import_parents (did_of fuel) [] (immediate_parent_path name) st) [
            | none ↦ none
            | some st' ↦ create_local did g name st'
          ]
    ]
  ]
