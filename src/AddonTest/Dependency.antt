-- ===== src/AddonTest/Dependency.antt =====
-- The dependencies of an addon (checkAddonDependency of test/e2e-test/addon-test/main.go).
pub mod Closure
pub mod Cycle
use kubevela_catalog.Base.{ℕ, zero, suc, String, List, [], ◌∷◌, Option, none, some, true, false}
use kubevela_catalog.AddonTest.{AddonMeta}
use kubevela_catalog.AddonTest.Slice.{merge_slice}

-- A call returns a slice or panics; the recursion may also need more steps than it is given.
pub data Walk : Type 0 where
  done : List String → Walk
  panics out_of_fuel : Walk

abbrev pub after_walk : Walk → (List String → Walk) → Walk
after_walk (done deps) rest = rest deps
after_walk panics rest = panics
after_walk out_of_fuel rest = out_of_fuel

-- the loop over the dependencies, for the function that it calls
unfoldable pub merge_all : (String → Walk) → List String → List String → Walk
merge_all check [] deps = done deps
merge_all check (dep ∷ rest) deps =
    after_walk (check dep) (λ below. merge_all check rest (merge_slice false below deps))

-- what follows on the reading of the metadata
unfoldable pub walk_meta : (String → Walk) → Option AddonMeta → Walk
unfolding merge_all
walk_meta check none = panics
walk_meta check (some meta) = merge_all check meta.dependencies meta.dependencies

-- readAddonMeta is a parameter: without a file, and on a file that cannot be read, the caller panics.
unfoldable pub check_addon_dependency : (String → Option AddonMeta) → ℕ → String → Walk
unfolding walk_meta
check_addon_dependency read_addon_meta zero addon = out_of_fuel
check_addon_dependency read_addon_meta (suc fuel) addon =
    walk_meta (check_addon_dependency read_addon_meta fuel) (read_addon_meta addon)
