-- ===== src/Desktop/Addons/Tests.antt =====
-- The add-ons at work, and each theorem at an input.
use anki.Prelude.{Bool, true, false, Option, none, some, List, [], ◌∷◌, ◌≡◌, refl}
use anki.Prelude.Int.{pos, negsuc}
use anki.Prelude.Text.{Text, codes, same, has_text}
use anki.Utils.{decimal}
use anki.Desktop.Addons.{
  JsonMeta, Folder, no_json, addon_json, write_json, addon_meta, write_addon_meta, from_json_meta,
  to_json_meta, all_addons, package_names, sort_texts, insert_text, leb_text, load_addons,
  compatible, is_latest,
}
use anki.Desktop.Addons.Conflicts.{
  toggle_enabled, disable_conflicting, disable, disable_each, find_conflicting, conflicting_with,
  add_conflict, add_conflicts, collect_conflicts, all_addon_conflicts, update_set, Manifest,
  update_json, unpack, Archive, PathEnv, InstallResult, starts_with, package_name_valid,
  install_package, install,
}
use anki.Desktop.Addons.Conflicts.Off.{is_enabled, conflicts_of}
use anki.Desktop.Addons.Conflicts.Apart.{AreApart}
use anki.Desktop.Addons.Conflicts.Load.{Step, Steps, load_addons-AreApart}
use anki.Desktop.Addons.Conflicts.Returns.{has_dir, toggle_enabled-returns}
use anki.Desktop.Addons.Updates.{
  UpdateInfo, Branch, update_supported_version, handle_update_info, extract_each,
  extract_update_info, branch_at, last_suitable, is_suitable, update_supported_versions,
  updates_required, needs_update, is_updated, supported, new_max, new_min, eq_ℤ,
}
use anki.Desktop.Addons.Updates.Supported.{in_range, update_supported_version-range}

-- The add-on with this name, list and bounds.
abbrev json : List Text → Bool → JsonMeta
json conflicts disabled = record no_json {
  disabled = some disabled;
  conflicts = some conflicts;
  min_point_version = some (pos 20);
}

abbrev two_addons : Folder
two_addons =
    record { dir = codes "a"; has_init = true; json = json (codes "b" ∷ []) false }
    ∷ record { dir = codes "b"; has_init = true; json = json [] true }
    ∷ []

abbrev report : Option (List Text × Folder) → Option (List Text × List Text)
report none = none
report (some (found, s)) = some (found, load_addons false 50 s)

-- Turning the second on turns the first off, which lists it.
turned_over :
    report (toggle_enabled false (codes "b") none two_addons)
    ≡ some (codes "a" ∷ [], codes "b" ∷ [])
unfolding toggle_enabled disable_conflicting disable disable_each find_conflicting conflicting_with
    add_conflict add_conflicts collect_conflicts all_addon_conflicts update_set addon_json
    write_json addon_meta write_addon_meta from_json_meta to_json_meta all_addons package_names
    sort_texts insert_text leb_text load_addons compatible same has_text
turned_over = refl

toggle_enabled-returns_example :
    (out : List Text × Folder) × (toggle_enabled false (codes "b") none two_addons ≡ some out)
    × (is_enabled (codes "b") out.1 ≡ true)
unfolding has_dir same addon_meta from_json_meta addon_json
toggle_enabled-returns_example = toggle_enabled-returns two_addons false (codes "b") none refl

abbrev env : PathEnv
env = record {
  basename = λ name. name;
  root = codes "/anki";
  subfolder = λ name. codes "/anki/add";
}

abbrev zfile : Archive
zfile = record { is_zip = true; has_init = true; json = no_json; deletable = true }

abbrev manifest : Text → List Text → Manifest
manifest name conflicts = record {
  package_name = name;
  name = name;
  mod_time = none;
  conflicts = some conflicts;
  min_point_version = none;
  max_point_version = none;
  branch_index = none;
  human_version = none;
  homepage = none;
}

abbrev after : Text → List Text → JsonMeta
after name conflicts = record no_json { name = some name; conflicts = some conflicts }

abbrev one_installed : Folder
one_installed =
    record { dir = codes "a"; has_init = true; json = after (codes "a") (codes "c" ∷ []) } ∷ []

abbrev two_installed : Folder
two_installed =
    record { dir = codes "a"; has_init = true; json = after (codes "a") (codes "c" ∷ []) }
    ∷ record { dir = codes "b"; has_init = true; json = after (codes "b") [] }
    ∷ []

none_on : AreApart false []
unfolding all_addons package_names sort_texts has_text
none_on a b h k n = absurd (cc (h.0))

installs : Steps false 50 env [] two_installed
unfolding install install_package package_name_valid starts_with unpack update_json toggle_enabled
    disable_conflicting disable disable_each find_conflicting conflicting_with add_conflict
    add_conflicts collect_conflicts all_addon_conflicts update_set addon_json write_json addon_meta
    write_addon_meta from_json_meta to_json_meta all_addons package_names sort_texts insert_text
    leb_text compatible same has_text
installs =
    Steps.step
      (Steps.step Steps.stay (
        Step.installed {s' = one_installed} zfile (some (manifest (codes "a") (codes "c" ∷ [])))
          (InstallResult.install_ok (codes "a") [] true) refl))
      (Step.installed {s' = two_installed} zfile (some (manifest (codes "b") []))
        (InstallResult.install_ok (codes "b") [] true) refl)

load_addons-AreApart_example : has_text (codes "b") (conflicts_of (codes "a") two_installed) ≡ false
unfolding load_addons addon_json addon_meta from_json_meta all_addons package_names sort_texts
    insert_text leb_text compatible same has_text
load_addons-AreApart_example =
    load_addons-AreApart false 50 env [] two_installed none_on installs (codes "a") (codes "b") refl
      refl refl

-- An add-on of the number 7 that supports up to 30.
abbrev seven : Folder
seven =
    record {
      dir = codes "7";
      has_init = true;
      json = record no_json { mod_time = some (pos 5); max_point_version = some (negsuc 29) };
    }
    ∷ []

-- The server has a newer one, which supports up to 40.
abbrev news : UpdateInfo
news = record {
  id = 7;
  suitable_branch_last_modified = pos 9;
  current_branch_last_modified = pos 9;
  current_branch_min_point_ver = pos 0;
  current_branch_max_point_ver = negsuc 39;
}

-- After that it passes as one that supports 35.
update_supported_version-range_example :
    (s' : Folder) × (update_supported_version news seven ≡ some s')
    × (compatible 35 (addon_meta (codes "7") s') ≡ true)
unfolding has_dir same addon_meta from_json_meta addon_json decimal is_latest in_range
update_supported_version-range_example = update_supported_version-range 35 news seven refl

stricter_before : compatible 35 (addon_meta (codes "7") seven) ≡ false
unfolding compatible addon_meta from_json_meta addon_json same
stricter_before = refl

-- The server's branches of the number 7: the second one is for newer versions than 35.
abbrev branches : List Branch
branches =
    record { fmod = pos 9; minpt = pos 0; maxpt = negsuc 39 }
    ∷ record { fmod = pos 11; minpt = pos 36; maxpt = pos 0 }
    ∷ []

abbrev asked : Option (List UpdateInfo × Folder) → Option (List UpdateInfo)
asked none = none
asked (some (items, s)) = some items

-- The user of 35 is asked about the first branch.
first_branch_suits :
    asked (handle_update_info 35 (record { id = 7; branches = branches } ∷ []) seven)
    ≡ some (news ∷ [])
unfolding handle_update_info extract_each extract_update_info branch_at last_suitable is_suitable
    update_supported_versions update_supported_version updates_required needs_update is_updated
    supported new_max new_min eq_ℤ is_latest compatible addon_meta write_addon_meta from_json_meta
    to_json_meta addon_json write_json same decimal
first_branch_suits = refl
