-- ===== src/Desktop/Addons/Updates.antt =====
-- Updates of add-ons: `extract_update_info`, `update_supported_version`, `updates_required` and the
-- two steps of `handle_update_info` before the user is asked, of qt/aqt/addons.py.
pub mod Supported
use anki.Prelude.{
  ℕ, suc, Bool, true, false, not, ◌&&◌, ◌||◌, ◌-◌, Option, none, some, List, [], ◌∷◌, get_elem?,
  length, ltb, leb, if◌then◌else◌,
}
use anki.Prelude.Int.{ℤ, pos, negsuc, neg_part, ltb_ℤ, leb_ℤ}
use anki.Utils.{decimal}
use anki.Desktop.Addons.{
  AddonMeta, Folder, addon_meta, write_addon_meta, is_latest, compatible, get_or,
}

-- A branch of an add-on on the server.
pub record Branch : Type 0 where
  pub fmod : ℤ
  pub minpt : ℤ
  pub maxpt : ℤ

-- What the server says of an add-on.
pub record InfoJson : Type 0 where
  pub id : ℕ
  pub branches : List Branch

pub record UpdateInfo : Type 0 where
  pub id : ℕ
  pub suitable_branch_last_modified : ℤ
  pub current_branch_last_modified : ℤ
  pub current_branch_min_point_ver : ℤ
  pub current_branch_max_point_ver : ℤ

-- `branches[i]`; a negative index counts from the end
unfoldable pub branch_at : List Branch → ℤ → Option Branch
branch_at branches (pos i) = get_elem? branches i
branch_at branches (negsuc i) =
    if ltb i (length branches) then get_elem? branches (length branches - suc i) else none

unfoldable pub is_suitable : ℕ → Branch → Bool
is_suitable current branch =
    if ltb_ℤ (pos current) branch.minpt
    then false
    else not (ltb_ℤ branch.maxpt (pos 0) && ltb (neg_part branch.maxpt) current)

-- The loop over the branches.
unfoldable pub last_suitable : ℕ → List Branch → ℤ → ℤ
last_suitable current [] last_mod = last_mod
last_suitable current (branch ∷ branches) last_mod =
    last_suitable current branches (if is_suitable current branch then branch.fmod else last_mod)

-- `extract_update_info`, which raises if there are no branches
unfoldable pub extract_update_info : ℕ → ℤ → InfoJson → Option UpdateInfo
extract_update_info current idx info =
    let chosen = branch_at info.branches idx in
    let or_first : Option Branch = elim chosen [
      | none ↦ get_elem? info.branches 0
      | some branch ↦ some branch
    ] in
    elim or_first [
      | none ↦ none
      | some branch ↦ some (record {
        id = info.id;
        suitable_branch_last_modified = last_suitable current info.branches (pos 0);
        current_branch_last_modified = branch.fmod;
        current_branch_min_point_ver = branch.minpt;
        current_branch_max_point_ver = branch.maxpt;
      })
    ]

unfoldable pub eq_ℤ : ℤ → ℤ → Bool
eq_ℤ a b = leb_ℤ a b && leb_ℤ b a

-- The new bound, if the stored one is to be replaced; the tests of `update_supported_version`.
unfoldable pub new_max : Bool → ℤ → ℤ → Option ℤ
new_max latest cur_max stored =
    if eq_ℤ stored cur_max
    then none
    else if latest || ltb_ℤ cur_max stored
    then some cur_max
    else none

unfoldable pub new_min : Bool → ℤ → ℤ → Option ℤ
new_min latest cur_min stored =
    if eq_ℤ stored cur_min
    then none
    else if latest || ltb_ℤ stored cur_min
    then some cur_min
    else none

-- What becomes of the add-on.
unfoldable pub supported : UpdateInfo → AddonMeta → AddonMeta
supported item addon =
    let latest = is_latest item.current_branch_last_modified addon in
    record addon {
      max_point_version =
          get_or addon.max_point_version
            (new_max latest item.current_branch_max_point_ver addon.max_point_version);
      min_point_version =
          get_or addon.min_point_version
            (new_min latest item.current_branch_min_point_ver addon.min_point_version);
    }

unfoldable pub is_updated : UpdateInfo → AddonMeta → Bool
is_updated item addon =
    let latest = is_latest item.current_branch_last_modified addon in
    let max = new_max latest item.current_branch_max_point_ver addon.max_point_version in
    let min = new_min latest item.current_branch_min_point_ver addon.min_point_version in
    elim max [ some m ↦ true | none ↦ elim min [ some m ↦ true | none ↦ false ] ]

-- `update_supported_version`
unfoldable pub update_supported_version : UpdateInfo → Folder → Option Folder
update_supported_version item folder =
    let addon = addon_meta (decimal item.id item.id []) folder in
    if is_updated item addon then write_addon_meta (supported item addon) folder else some folder

unfoldable pub update_supported_versions : List UpdateInfo → Folder → Option Folder
update_supported_versions [] folder = some folder
update_supported_versions (item ∷ items) folder = elim (update_supported_version item folder) [
  | none ↦ none
  | some folder' ↦ update_supported_versions items folder'
]

module _ (current : ℕ) where
  -- The tests of `updates_required`.
  unfoldable pub needs_update : UpdateInfo → AddonMeta → Bool
  needs_update item addon =
      if not (is_latest item.suitable_branch_last_modified addon)
      then true
      else not (compatible current addon) && ltb_ℤ (pos 0) item.suitable_branch_last_modified

  unfoldable pub updates_required : List UpdateInfo → Folder → List UpdateInfo
  updates_required [] folder = []
  updates_required (item ∷ items) folder =
      let rest = updates_required items folder in
      if needs_update item (addon_meta (decimal item.id item.id []) folder)
      then item ∷ rest
      else rest

  -- The method `extract_update_info`, of the branch that each add-on is of
  unfoldable pub extract_each : List InfoJson → Folder → Option (List UpdateInfo)
  extract_each [] folder = some []
  extract_each (info ∷ infos) folder =
      let addon = addon_meta (decimal info.id info.id []) folder in
      elim (extract_update_info current addon.branch_index info) [
        | none ↦ none
        | some item ↦ elim (extract_each infos folder) [
          | none ↦ none
          | some items ↦ some (item ∷ items)
        ]
      ]

  -- `handle_update_info`, up to the question to the user
  unfoldable pub handle_update_info : List InfoJson → Folder → Option (List UpdateInfo × Folder)
  handle_update_info infos folder = elim (extract_each infos folder) [
    | none ↦ none
    | some items ↦ elim (update_supported_versions items folder) [
      | none ↦ none
      | some folder' ↦ some (updates_required items folder', folder')
    ]
  ]
