-- ===== src/AddonTest/Version.antt =====
-- The check that a changed addon has a new version (checkUpgradeAddonVersion of
-- test/e2e-test/addon-test/main.go).
pub mod Upgraded
use kubevela_catalog.Base.{
  ℕ, String, List, [], ◌∷◌, Option, none, some, Bool, true, false, not, ◌&&◌, ◌<>◌, ltb, length,
  get_or, has_prefix, if◌then◌else◌,
}
use kubevela_catalog.Base.Path.{split, join}
use kubevela_catalog.K8s.{Error, new_error}
use kubevela_catalog.AddonTest.Slice.{has}

abbrev pub not_upgraded : String → String → Error
not_upgraded file addon =
    new_error ("changing file: " <> file <> " without upgrading the version of addon: " <> addon)

-- `if !filesMap[…] { return fmt.Errorf(…) }`, and what follows
unfoldable pub demand : List String → String → String → String → Option Error → Option Error
demand changed file addon metadata rest =
    if not (has metadata changed) then some (not_upgraded file addon) else rest

-- the two cases of the loop's body; a path that is too short ends the round
unfoldable pub check_experimental : List String → String → Option Error → Option Error
check_experimental changed file rest =
    let elem = split file in
    let addon = get_or elem 2 "" in
    if has_prefix file "experimental/addons/"
    then (if ltb (length elem) 4
        then rest
        else demand changed file addon
            (join ("experimental" ∷ "addons" ∷ addon ∷ "metadata.yaml" ∷ [])) rest)
    else rest

unfoldable pub check_addon : List String → String → Option Error → Option Error
check_addon changed file rest =
    let elem = split file in
    let addon = get_or elem 1 "" in
    if has_prefix file "addons/"
    then (if ltb (length elem) 2
        then rest
        else demand changed file addon (join ("addons" ∷ addon ∷ "metadata.yaml" ∷ []))
            (check_experimental changed file rest))
    else check_experimental changed file rest

unfoldable pub check_files : List String → List String → Option Error
check_files changed [] = none
check_files changed (file ∷ files) =
    let rest = check_files changed files in
    if not (has_prefix file "addons/") && not (has_prefix file "experimental/addons/")
    then rest
    else check_addon changed file rest

unfoldable pub check_upgrade_addon_version : List String → Option Error
check_upgrade_addon_version changed = check_files changed changed
