-- ===== src/AddonTest/Version/Upgraded.antt =====
-- Which changes the check accepts.
use kubevela_catalog.Base.{
  ◌≤◌, ◌≡◌, ◌↔◌, String, List, [], ◌∷◌, Option, none, true, All, arith, length, get_or, has_prefix,
}
use kubevela_catalog.Base.Path.{split, join}
use kubevela_catalog.K8s.{Error}
use kubevela_catalog.AddonTest.Slice.{has}
use kubevela_catalog.AddonTest.Version.{
  demand, check_experimental, check_addon, check_files, check_upgrade_addon_version,
}

-- the metadata of the addon that a path lies in
abbrev pub addon_metadata : String → String
addon_metadata file = join ("addons" ∷ get_or (split file) 1 "" ∷ "metadata.yaml" ∷ [])

abbrev pub experimental_metadata : String → String
experimental_metadata file =
    join ("experimental" ∷ "addons" ∷ get_or (split file) 2 "" ∷ "metadata.yaml" ∷ [])

abbrev pub IsUpgradedAddon : List String → String → Type 0
IsUpgradedAddon changed file =
    has_prefix file "addons/" ≡ true
    → 2 ≤ length (split file)
    → has (addon_metadata file) changed ≡ true

-- of an experimental addon, only the files below its directory count
abbrev pub IsUpgradedExperimental : List String → String → Type 0
IsUpgradedExperimental changed file =
    has_prefix file "experimental/addons/" ≡ true
    → 4 ≤ length (split file)
    → has (experimental_metadata file) changed ≡ true

-- A changed file of an addon comes with a change of the addon's metadata.
abbrev pub IsUpgraded : List String → String → Type 0
IsUpgraded changed file = IsUpgradedAddon changed file × IsUpgradedExperimental changed file

check_experimental_iff :
    (changed : List String) (file : String) (rest : Option Error)
    → (check_experimental changed file rest ≡ none)
      ↔ (IsUpgradedExperimental changed file × (rest ≡ none))
unfolding check_experimental demand
check_experimental_iff changed file rest = ground arith

check_addon_iff :
    (changed : List String) (file : String) (rest : Option Error)
    → (check_addon changed file rest ≡ none) ↔ (IsUpgraded changed file × (rest ≡ none))
unfolding check_addon demand
check_addon_iff changed file rest = ground (arith, check_experimental_iff changed file rest)

check_files_iff :
    (changed files : List String)
    → (check_files changed files ≡ none) ↔ All (IsUpgraded changed) files
unfolding check_files
check_files_iff changed [] = ground arith
check_files_iff changed (file ∷ files) =
    ground (
      arith,
      check_addon_iff changed file (check_files changed files),
      check_files_iff changed files,
    )

-- The check accepts a change exactly if each changed file of an addon comes with a change of the
-- metadata of that addon; of an experimental addon, only the files below its directory count.
pub check_upgrade_addon_version_iff :
    (changed : List String)
    → (check_upgrade_addon_version changed ≡ none) ↔ All (IsUpgraded changed) changed
unfolding check_upgrade_addon_version
check_upgrade_addon_version_iff changed = check_files_iff changed changed
