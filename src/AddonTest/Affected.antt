-- ===== src/AddonTest/Affected.antt =====
-- The addons that a change needs to have tested (readAllAddons, genAffectedFromChangedFiles,
-- checkAffectedAddon and determineNeedEnableAddon of test/e2e-test/addon-test/main.go).
pub mod Needed
use kubevela_catalog.Base.{
  ℕ, String, List, [], ◌∷◌, ◌++◌, Option, none, some, Bool, true, false, not, str_eq, ◌<>◌,
  if◌then◌else◌,
}
use kubevela_catalog.Base.Exec.{Result, ok, err}
use kubevela_catalog.K8s.{Error}
use kubevela_catalog.AddonTest.{AddonMeta, DirEntry, Repository}
use kubevela_catalog.AddonTest.Slice.{has, merge_slice}
use kubevela_catalog.AddonTest.Dependency.{
  Walk, done, panics, out_of_fuel, after_walk, check_addon_dependency,
}

abbrev pub addon_pattern : String
addon_pattern = "^addons.*"

abbrev pub test_case_pattern : String
test_case_pattern = "^test/e2e-test/addon-test/definition-test/testdata.*"

abbrev pub global_rex_pattern : String
global_rex_pattern = "^.github.*|Makefile|.*.go"

-- the names of the directories
unfoldable pub dir_names : List DirEntry → List String
dir_names [] = []
dir_names (e ∷ es) = let rest = dir_names es in if e.is_dir then e.name ∷ rest else rest

-- the names joined by "|"
unfoldable pub addon_regex : List String → String
addon_regex [] = ""
addon_regex (a ∷ []) = a
addon_regex (a ∷ b ∷ rest) = a <> "|" <> addon_regex (b ∷ rest)

-- the loop over the dependencies of one addon, which is noted once
unfoldable pub note_affected : String → String → List String → List String → List String
note_affected addon name [] noted = noted
note_affected addon name (d ∷ ds) noted =
    note_affected addon name ds
      (if str_eq d addon then (if has name noted then noted else noted ++ name ∷ []) else noted)

-- one round of the loop over the files
unfoldable pub note_changed : String → List String → List String
note_changed found noted = if has found noted then noted else found ∷ noted

-- a slice, for the function that goes on; without one, it panics
abbrev pub with_slice : Option (List String) → (List String → Walk) → Walk
with_slice none rest = panics
with_slice (some xs) rest = rest xs

module _ (repo : Repository) where
  unfoldable pub names_of : Result Error (List DirEntry) → Option (List String)
  names_of (err e) = none
  names_of (ok entries) = some (dir_names entries)

  -- Without the directory, the callers panic.
  unfoldable pub read_all_addons : Option (List String)
  read_all_addons = names_of repo.dir

  unfoldable pub note_meta : String → Option AddonMeta → List String → Option (List String)
  note_meta addon none noted = none
  note_meta addon (some meta) noted = some (note_affected addon meta.name meta.dependencies noted)

  abbrev pub go_on :
      Option (List String) → (List String → Option (List String)) → Option (List String)
  go_on none rest = none
  go_on (some xs) rest = rest xs

  unfoldable pub collect_affected : String → List String → List String → Option (List String)
  collect_affected addon [] noted = some noted
  collect_affected addon (d ∷ ds) noted =
      go_on (note_meta addon (repo.read_addon_meta d) noted) (collect_affected addon ds)

  unfoldable pub check_affected_addon : String → Option (List String)
  check_affected_addon addon = go_on read_all_addons (λ dirs. collect_affected addon dirs [])

  unfoldable pub gen_affected : String → String → List String → List String → Option (List String)
  gen_affected filter pattern noted [] = some noted
  gen_affected filter pattern noted (s ∷ ss) =
      let found = repo.find_string pattern s in
      let skipped = gen_affected filter pattern noted ss in
      let counted = gen_affected filter pattern (note_changed found noted) ss in
      if str_eq (repo.find_string filter s) ""
      then skipped
      else if not (str_eq found "")
      then counted
      else if not (str_eq (repo.find_string global_rex_pattern s) "")
      then read_all_addons
      else skipped

  -- `changedAddons = MergeSlice(true, changedAddons, checkAffectedAddon(addon))`, for each addon
  unfoldable pub with_affected : List String → List String → Option (List String)
  with_affected [] changed = some changed
  with_affected (a ∷ rest) changed =
      go_on (check_affected_addon a) (λ more. with_affected rest (merge_slice true changed more))

  -- `changedAddons = MergeSlice(false, changedAddons, checkAddonDependency(addon))`, for each addon
  unfoldable pub with_dependencies : ℕ → List String → List String → Walk
  with_dependencies fuel [] changed = done changed
  with_dependencies fuel (a ∷ rest) changed =
      after_walk (check_addon_dependency repo.read_addon_meta fuel a)
        (λ deps. with_dependencies fuel rest (merge_slice false changed deps))

  unfoldable pub determine_need_enable_addon : ℕ → List String → Walk
  determine_need_enable_addon fuel changed_file = with_slice read_all_addons (λ all.
      with_slice (gen_affected addon_pattern (addon_regex all) [] changed_file) (λ meta_changed.
        with_slice (gen_affected test_case_pattern (addon_regex all) [] changed_file)
          (λ test_affected.
            let changed = merge_slice true meta_changed test_affected in
            with_slice (with_affected changed changed)
              (λ affected. with_dependencies fuel affected affected))))
