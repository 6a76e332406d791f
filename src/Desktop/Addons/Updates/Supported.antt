-- ===== src/Desktop/Addons/Updates/Supported.antt =====
-- Which versions an add-on supports after an update of what is known of it.
use anki.Prelude.{
  ℕ, Bool, ◌&&◌, ◌≡◌, ◌∙◌, refl, leb, arith, if◌then◌else◌, Bool-cases, Option-cases, IfSome, inl,
  inr, ap, sym, subst, some, [], true, false,
}
use anki.Prelude.Int.{ℤ, pos, negsuc, neg_part, leb_ℤ, max_ℤ, min_ℤ}
use anki.Desktop.Addons.{
  JsonMeta, AddonMeta, Folder, is_latest, compatible, get_or, addon_meta, addon_json,
  from_json_meta, to_json_meta, write_addon_meta,
}
use anki.Utils.{decimal}
use anki.Prelude.Text.{Text}
use anki.Desktop.Addons.Updates.{
  UpdateInfo, eq_ℤ, new_max, new_min, supported, is_updated, update_supported_version,
}
use anki.Desktop.Addons.Conflicts.Off.{Wrote, write_json-Wrote}
use anki.Desktop.Addons.Conflicts.Returns.{has_dir, write_json-Returned}

-- A version is in a range; an upper bound that is not negative is none.
unfoldable pub in_range : ℕ → ℤ → ℤ → Bool
in_range v lo (pos hi) = leb_ℤ lo (pos v)
in_range v lo (negsuc hi) = leb_ℤ lo (pos v) && leb v (neg_part (negsuc hi))

compatible-in_range :
    (v : ℕ) (addon : AddonMeta)
    → compatible v addon ≡ in_range v addon.min_point_version addon.max_point_version
unfolding compatible in_range
compatible-in_range v addon = ground arith

new_max-min :
    (latest : Bool) (cur stored : ℤ)
    → get_or stored (new_max latest cur stored) ≡ (if latest then cur else min_ℤ stored cur)
unfolding new_max eq_ℤ
new_max-min latest cur stored = ground arith

new_min-max :
    (latest : Bool) (cur stored : ℤ)
    → get_or stored (new_min latest cur stored) ≡ (if latest then cur else max_ℤ stored cur)
unfolding new_min eq_ℤ
new_min-max latest cur stored = ground arith

supported-compatible :
    (v : ℕ) (item : UpdateInfo) (addon : AddonMeta)
    → compatible v (supported item addon) ≡ (
        if is_latest item.current_branch_last_modified addon
        then in_range v item.current_branch_min_point_ver item.current_branch_max_point_ver
        else in_range v
            (max_ℤ addon.min_point_version item.current_branch_min_point_ver)
            (min_ℤ addon.max_point_version item.current_branch_max_point_ver))
unfolding supported
supported-compatible v item addon =
    let latest = is_latest item.current_branch_last_modified addon in
    let lo = new_min-max latest item.current_branch_min_point_ver addon.min_point_version in
    let hi = new_max-min latest item.current_branch_max_point_ver addon.max_point_version in
    compatible-in_range v (supported item addon)
    ∙ rw (lo, hi) (elim (Bool-cases latest) [ inl e ↦ rw (e) refl | inr e ↦ rw (e) refl ])

not_updated :
    (item : UpdateInfo) (addon : AddonMeta)
    → is_updated item addon ≡ false
    → supported item addon ≡ addon
unfolding is_updated supported
not_updated item addon h =
    let latest = is_latest item.current_branch_last_modified addon in
    let m = new_max latest item.current_branch_max_point_ver addon.max_point_version in
    let n = new_min latest item.current_branch_min_point_ver addon.min_point_version in
    elim (Option-cases m) [
      | inr (x, e) ↦ absurd (ground (arith, e, h))
      | inl e ↦ elim (Option-cases n) [
        | inr (y, f) ↦ absurd (ground (arith, e, f, h))
        | inl f ↦ rw (e, f) refl
      ]
    ]

compatible-stored :
    (v : ℕ) (name : Text) (addon : AddonMeta) (old : JsonMeta)
    → compatible v (from_json_meta name (to_json_meta addon old)) ≡ compatible v addon
unfolding compatible from_json_meta to_json_meta
compatible-stored v name addon old = refl

-- The range of the versions that an add-on supports after an update of what is known.
abbrev pub range_after : ℕ → UpdateInfo → AddonMeta → Bool
range_after v item addon =
    if is_latest item.current_branch_last_modified addon
    then in_range v item.current_branch_min_point_ver item.current_branch_max_point_ver
    else in_range v (max_ℤ addon.min_point_version item.current_branch_min_point_ver)
        (min_ℤ addon.max_point_version item.current_branch_max_point_ver)

-- To update what is known of an add-on returns if its directory is there. Then an add-on that is the
-- latest supports the versions that the server says, and one that is not supports those from the
-- greater of the two lower bounds on, up to the lesser of the two signed upper bounds: of two upper
-- bounds that are in force, which are negative, this is the laxer one.
pub update_supported_version-range :
    (v : ℕ) (item : UpdateInfo) (s : Folder)
    → has_dir (decimal item.id item.id []) s ≡ true
    → (s' : Folder) × (update_supported_version item s ≡ some s')
      × (compatible v (addon_meta (decimal item.id item.id []) s')
          ≡ range_after v item (addon_meta (decimal item.id item.id []) s))
unfolding update_supported_version write_addon_meta addon_meta supported from_json_meta
update_supported_version-range v item s h =
    let name = decimal item.id item.id [] in
    let addon = addon_meta name s in
    let new = supported item addon in
    let json = to_json_meta new (addon_json name s) in
    elim (Bool-cases (is_updated item addon)) [
      | inr e ↦ (
        s,
        rw (e) refl,
        ap (compatible v) (sym (not_updated item addon e)) ∙ supported-compatible v item addon,
      )
      | inl e ↦
          let (s', f, k) = write_json-Returned name json s h in
          let w = subst (IfSome (Wrote name json s)) f (write_json-Wrote name json s) in
          (
            s',
            rw (e) f,
            ap (λ j. compatible v (from_json_meta name j)) w.0
                ∙ compatible-stored v name new (addon_json name s)
                ∙ supported-compatible v item addon,
          )
    ]
