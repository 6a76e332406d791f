-- ===== src/Desktop/Addons/Conflicts.antt =====
-- Conflicts between add-ons, and what turns an add-on on or off: `toggleEnabled`, `allAddonConflicts`,
-- `_disableConflicting` and `install` of qt/aqt/addons.py.
pub mod Off
pub mod Found
pub mod Apart
pub mod Install
pub mod Load
pub mod Returns
use anki.Prelude.{
  ℕ, Bool, true, false, not, ◌&&◌, Option, none, some, List, [], ◌∷◌, ◌++◌, non_empty, select,
  if◌then◌else◌,
}
use anki.Prelude.Int.{ℤ}
use anki.Prelude.Text.{Text, codes, same, has_text}
use anki.Desktop.Addons.{
  JsonMeta, Folder, or_else, get_or, addon_json, write_json, addon_meta, write_addon_meta,
  all_addons, compatible,
}

-- `all_conflicts`, a dict of lists
abbrev pub ConflictMap : Type 0
ConflictMap = List (Text × List Text)

-- `all_conflicts.get(module, [])`
unfoldable pub conflicting_with : Text → ConflictMap → List Text
conflicting_with name [] = []
conflicting_with name ((key, dirs) ∷ all) =
    if same key name then dirs else conflicting_with name all

-- `all_conflicts[other_dir].append(dir_name)`
unfoldable pub add_conflict : Text → Text → ConflictMap → ConflictMap
add_conflict other dir [] = (other, dir ∷ []) ∷ []
add_conflict other dir ((key, dirs) ∷ all) =
    let later = add_conflict other dir all in
    if same key other then (key, dirs ++ dir ∷ []) ∷ all else (key, dirs) ∷ later

unfoldable pub add_conflicts : Text → List Text → ConflictMap → ConflictMap
add_conflicts dir [] all = all
add_conflicts dir (other ∷ others) all = add_conflicts dir others (add_conflict other dir all)

-- `allAddonConflicts`, from the add-ons of a list on
unfoldable pub collect_conflicts : Folder → List Text → ConflictMap → ConflictMap
collect_conflicts folder [] all = all
collect_conflicts folder (dir ∷ dirs) all =
    let addon = addon_meta dir folder in
    if not addon.enabled
    then collect_conflicts folder dirs all
    else collect_conflicts folder dirs (add_conflicts dir addon.conflicts all)

unfoldable pub all_addon_conflicts : Bool → Folder → ConflictMap
all_addon_conflicts reversed folder = collect_conflicts folder (all_addons reversed folder) []

-- A set, in the order in which its texts came in; `found.update(ts)`.
unfoldable pub update_set : List Text → List Text → List Text
update_set found [] = found
update_set found (t ∷ ts) = update_set (if has_text t found then found else found ++ t ∷ []) ts

-- `toggleEnabled(package, enable=False)`
unfoldable pub disable : Text → Folder → Option Folder
disable name folder = write_addon_meta (record (addon_meta name folder) { enabled = false }) folder

unfoldable pub disable_each : List Text → Folder → Option Folder
disable_each [] folder = some folder
disable_each (name ∷ names) folder = elim (disable name folder) [
  | none ↦ none
  | some folder' ↦ disable_each names folder'
]

module _ (reversed : Bool) where
  -- What `_disableConflicting` finds.
  unfoldable pub find_conflicting : Text → List Text → Folder → List Text
  find_conflicting name given folder =
      let conflicts = if non_empty given then given else (addon_meta name folder).conflicts in
      let installed = all_addons reversed folder in
      update_set
        (update_set []
          (select (λ d. has_text d installed && (addon_meta d folder).enabled) conflicts))
        (conflicting_with name (all_addon_conflicts reversed folder))

  -- `_disableConflicting`; `[]` for no argument `conflicts`
  unfoldable pub disable_conflicting : Text → List Text → Folder → Option (List Text × Folder)
  disable_conflicting name given folder =
      let found = find_conflicting name given folder in
      elim (disable_each found folder) [ none ↦ none | some folder' ↦ some (found, folder') ]

  -- `toggleEnabled`, with the add-ons that it reports as disabled
  unfoldable pub toggle_enabled : Text → Option Bool → Folder → Option (List Text × Folder)
  toggle_enabled name enable folder =
      let addon = addon_meta name folder in
      let should_enable = get_or (not addon.enabled) enable in
      let before =
        if should_enable then disable_conflicting name [] folder else some ([], folder) in
      elim before [
        | none ↦ none
        | some (found, folder') ↦
            elim (write_addon_meta (record addon { enabled = should_enable }) folder') [
              | none ↦ none
              | some folder'' ↦ some (found, folder'')
            ]
      ]

-- What `manifest.json` and the caller say of a package; only these attributes get to `meta.json`.
pub record Manifest : Type 0 where
  pub package_name : Text
  pub name : Text
  pub mod_time : Option ℤ
  pub conflicts : Option (List Text)
  pub min_point_version : Option ℤ
  pub max_point_version : Option ℤ
  pub branch_index : Option ℤ
  pub human_version : Option Text
  pub homepage : Option Text

-- `meta.update(manifest_meta)`
unfoldable pub update_json : Manifest → JsonMeta → JsonMeta
update_json manifest meta = record meta {
  name = some manifest.name;
  mod_time = or_else manifest.mod_time meta.mod_time;
  conflicts = or_else manifest.conflicts meta.conflicts;
  min_point_version = or_else manifest.min_point_version meta.min_point_version;
  max_point_version = or_else manifest.max_point_version meta.max_point_version;
  branch_index = or_else manifest.branch_index meta.branch_index;
  human_version = or_else manifest.human_version meta.human_version;
  homepage = or_else manifest.homepage meta.homepage;
}

-- What `_install` leaves of the directory: the one of the package, or a new one, with or without an
-- `__init__.py` in the archive, and with the `meta.json` in it, if there is one. Where the old
-- directory cannot be deleted it stays as it is.
unfoldable pub unpack : Bool → Text → Bool → JsonMeta → Folder → Folder
unpack deletable name has_init json [] =
    record { dir = name; has_init = has_init; json = json } ∷ []
unpack deletable name has_init json (d ∷ ds) =
    let later = unpack deletable name has_init json ds in
    if same d.dir name
    then (if deletable then record d { has_init = has_init; json = json } else d) ∷ ds
    else d ∷ later

-- `InstallOk` and `InstallError`
pub data InstallResult : Type 0 where
  install_ok : Text → List Text → Bool → InstallResult
  install_error : Text → InstallResult

-- `os.path` and the current directory; `subfolder` is `os.path.abspath(os.path.join(root, name))`.
pub record PathEnv : Type 0 where
  pub basename : Text → Text
  pub root : Text
  pub subfolder : Text → Text

-- `text.startswith(prefix)`
unfoldable pub starts_with : Text → Text → Bool
starts_with text [] = true
starts_with [] (c ∷ prefix) = false
starts_with (d ∷ text) (c ∷ prefix) = same (c ∷ []) (d ∷ []) && starts_with text prefix

unfoldable pub package_name_valid : PathEnv → Text → Bool
package_name_valid env name =
    if not (same (env.basename name) name)
    then false
    else not (starts_with env.root (env.subfolder name))

-- The archive: whether it is one, and what `_install` takes from it.
pub record Archive : Type 0 where
  pub is_zip : Bool
  pub has_init : Bool
  pub json : JsonMeta
  pub deletable : Bool

module _ (reversed : Bool) (current : ℕ) (env : PathEnv) where
  -- A package that passed the tests.
  unfoldable pub install_package : Archive → Manifest → Folder → Option (InstallResult × Folder)
  install_package zfile manifest folder =
      let name = manifest.package_name in
      elim (disable_conflicting reversed name (get_or [] manifest.conflicts) folder) [
        | none ↦ none
        | some (found, folder') ↦
            let meta = update_json manifest (addon_json name folder') in
            let unpacked = unpack zfile.deletable name zfile.has_init zfile.json folder' in
            elim (write_json name meta unpacked) [
              | none ↦ none
              | some folder'' ↦ some (
                InstallResult.install_ok manifest.name found
                    (compatible current (addon_meta name folder'')),
                folder'',
              )
            ]
      ]

  -- `install`, from the manifest that the archive and the caller give together, or `none` if both are
  -- empty
  unfoldable pub install : Archive → Option Manifest → Folder → Option (InstallResult × Folder)
  install zfile given folder =
      if not zfile.is_zip
      then some (InstallResult.install_error (codes "zip"), folder)
      else elim given [
        | none ↦ some (InstallResult.install_error (codes "manifest"), folder)
        | some manifest ↦
            if not (package_name_valid env manifest.package_name)
            then some (InstallResult.install_error (codes "invalid package"), folder)
            else install_package zfile manifest folder
      ]
