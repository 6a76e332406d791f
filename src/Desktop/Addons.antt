-- ===== src/Desktop/Addons.antt =====
-- `AddonManager` and `AddonMeta` of qt/aqt/addons.py: which add-ons are enabled, which conflict, and
-- what an update changes. The folder of the add-ons is a list of directories with their `meta.json`.
pub mod Conflicts
pub mod Updates
mod Tests
use anki.Prelude.{
  ℕ, Bool, true, false, not, ◌&&◌, ◌||◌, Option, none, some, List, [], ◌∷◌, ◌++◌, map, reverse,
  non_empty, select, ◌==◌, ltb, leb, if◌then◌else◌, get_elem?,
}
use anki.Prelude.Int.{ℤ, pos, negsuc, pos_part, neg_part, ltb_ℤ, leb_ℤ}
use anki.Prelude.Text.{Text, same, has_text}

-- The attributes of `meta.json`, each there or not. The others are never changed and are left out.
pub record JsonMeta : Type 0 where
  pub name : Option Text
  pub disabled : Option Bool
  pub mod_time : Option ℤ
  pub conflicts : Option (List Text)
  pub min_point_version : Option ℤ
  pub max_point_version : Option ℤ
  pub branch_index : Option ℤ
  pub human_version : Option Text
  pub update_enabled : Option Bool
  pub homepage : Option Text

pub record AddonMeta : Type 0 where
  pub dir_name : Text
  pub provided_name : Option Text
  pub enabled : Bool
  pub installed_at : ℤ
  pub conflicts : List Text
  pub min_point_version : ℤ
  pub max_point_version : ℤ
  pub branch_index : ℤ
  pub human_version : Option Text
  pub update_enabled : Bool
  pub homepage : Option Text

-- `json_meta.get(key, default)`
abbrev pub get_or {ℓ} : {A : Type ℓ} → A → Option A → A
get_or default none = default
get_or default (some a) = a

unfoldable pub from_json_meta : Text → JsonMeta → AddonMeta
from_json_meta dir_name json_meta = record {
  dir_name = dir_name;
  provided_name = json_meta.name;
  enabled = not (get_or false json_meta.disabled);
  installed_at = get_or (pos 0) json_meta.mod_time;
  conflicts = get_or [] json_meta.conflicts;
  min_point_version = get_or (pos 0) json_meta.min_point_version;
  max_point_version = get_or (pos 0) json_meta.max_point_version;
  branch_index = get_or (pos 0) json_meta.branch_index;
  human_version = json_meta.human_version;
  update_enabled = get_or true json_meta.update_enabled;
  homepage = json_meta.homepage;
}

-- An attribute that is only written if there is a value.
abbrev pub or_else {ℓ} : {A : Type ℓ} → Option A → Option A → Option A
or_else none old = old
or_else (some a) old = some a

-- What `write_addon_meta` makes of the attributes that it finds.
unfoldable pub to_json_meta : AddonMeta → JsonMeta → JsonMeta
to_json_meta addon json_obj = record {
  name = or_else addon.provided_name json_obj.name;
  disabled = some (not addon.enabled);
  mod_time = some addon.installed_at;
  conflicts = some addon.conflicts;
  min_point_version = some addon.min_point_version;
  max_point_version = some addon.max_point_version;
  branch_index = some addon.branch_index;
  human_version = or_else addon.human_version json_obj.human_version;
  update_enabled = some addon.update_enabled;
  homepage = json_obj.homepage;
}

-- `compatible`, where `current` is `current_point_version`
unfoldable pub compatible : ℕ → AddonMeta → Bool
compatible current addon =
    if ltb_ℤ (pos current) addon.min_point_version
    then false
    else not
        (ltb_ℤ addon.max_point_version (pos 0) && ltb (neg_part addon.max_point_version) current)

-- `is_latest`
unfoldable pub is_latest : ℤ → AddonMeta → Bool
is_latest server_update_time addon = leb_ℤ server_update_time addon.installed_at

-- A directory: whether it has an `__init__.py`, and its `meta.json`.
pub record AddonDir : Type 0 where
  pub dir : Text
  pub has_init : Bool
  pub json : JsonMeta

abbrev pub Folder : Type 0
Folder = List AddonDir

abbrev pub no_json : JsonMeta
no_json = record {
  name = none;
  disabled = none;
  mod_time = none;
  conflicts = none;
  min_point_version = none;
  max_point_version = none;
  branch_index = none;
  human_version = none;
  update_enabled = none;
  homepage = none;
}

-- `addonMeta`: without the directory or the file there are no attributes
unfoldable pub addon_json : Text → Folder → JsonMeta
addon_json name [] = no_json
addon_json name (d ∷ ds) = if same d.dir name then d.json else addon_json name ds

-- `writeAddonMeta`, which raises if there is no such directory
unfoldable pub write_json : Text → JsonMeta → Folder → Option Folder
write_json name json [] = none
write_json name json (d ∷ ds) =
    let later = write_json name json ds in
    if same d.dir name
    then some (record d { json = json } ∷ ds)
    else elim later [ none ↦ none | some ds' ↦ some (d ∷ ds') ]

-- `addon_meta`
unfoldable pub addon_meta : Text → Folder → AddonMeta
addon_meta name folder = from_json_meta name (addon_json name folder)

-- `write_addon_meta`
unfoldable pub write_addon_meta : AddonMeta → Folder → Option Folder
write_addon_meta addon folder =
    write_json addon.dir_name (to_json_meta addon (addon_json addon.dir_name folder)) folder

-- Python's order of texts, and `list.sort` by it.
unfoldable pub leb_text : Text → Text → Bool
leb_text [] t = true
leb_text (c ∷ s) [] = false
leb_text (c ∷ s) (d ∷ t) = ltb c d || (c == d && leb_text s t)

unfoldable pub insert_text : Text → List Text → List Text
insert_text t [] = t ∷ []
insert_text t (u ∷ us) =
    let later = insert_text t us in if leb_text t u then t ∷ u ∷ us else u ∷ later

unfoldable pub sort_texts : List Text → List Text
sort_texts [] = []
sort_texts (t ∷ ts) = insert_text t (sort_texts ts)

unfoldable pub package_names : Folder → List Text
package_names [] = []
package_names (d ∷ ds) = let rest = package_names ds in if d.has_init then d.dir ∷ rest else rest

-- `allAddons`; `reversed` says whether ANKIREVADDONS is set
unfoldable pub all_addons : Bool → Folder → List Text
all_addons reversed folder =
    let names = sort_texts (package_names folder) in if reversed then reverse names else names

-- `loadAddons`: the add-ons that it imports
unfoldable pub load_addons : Bool → ℕ → Folder → List Text
load_addons reversed current folder =
    select (λ d. (addon_meta d folder).enabled && compatible current (addon_meta d folder))
      (all_addons reversed folder)
