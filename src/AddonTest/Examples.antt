-- ===== src/AddonTest/Examples.antt =====
-- The theorems on the driver of the addons' tests at concrete inputs, and a run of its walk.
use kubevela_catalog.Base.{
  ℕ, ◌<◌, String, List, [], ◌∷◌, Option, none, some, true, false, ◌≡◌, refl, arith, str_eq,
  str_eq_iff, Bool-cases, inl, inr, or_cases, sym, ◌↔◌, All, has_prefix, if◌then◌else◌,
}
use kubevela_catalog.Base.Exec.{ok, stop}
use kubevela_catalog.K8s.{Error, server}
use kubevela_catalog.AddonTest.{AddonMeta, Repository}
use kubevela_catalog.AddonTest.Slice.{has, add, merge_from, merge_slice}
use kubevela_catalog.AddonTest.Dependency.{done, merge_all, walk_meta, check_addon_dependency}
use kubevela_catalog.AddonTest.Dependency.Closure.{IsAcyclic, IsClosure, dependency_walk_ends}
use kubevela_catalog.AddonTest.Dependency.Closure.{Depends, direct, through}
use kubevela_catalog.AddonTest.Dependency.Cycle.{Ended, named, cycle_never_ends}
use kubevela_catalog.AddonTest.Affected.{with_dependencies}
use kubevela_catalog.AddonTest.Affected.Needed.{IsNeeded, with_dependencies-IsNeeded}
use kubevela_catalog.AddonTest.Version.{
  check_upgrade_addon_version, check_files, check_addon, demand, not_upgraded,
}
use kubevela_catalog.AddonTest.Version.Upgraded.{IsUpgraded, check_upgrade_addon_version_iff}
use kubevela_catalog.Base.Path.{join, clean, split, join_with_slashes}
use kubevela_catalog.AddonTest.Enable.{unsuccessful, is_missing, Api, enable_addons_by_order}
use kubevela_catalog.AddonTest.Enable.Order.{failing, enable_addons_by_order_lem}

abbrev meta : String → List String → Option AddonMeta
meta name deps = some (record { name = name; dependencies = deps })

-- `a` depends on `b` and `d`, `b` on `d`, and `d` on `e`
abbrev read_addon_meta : String → Option AddonMeta
read_addon_meta s =
    if str_eq s "a"
    then meta "a" ("b" ∷ "d" ∷ [])
    else if str_eq s "b"
    then meta "b" ("d" ∷ [])
    else if str_eq s "d"
    then meta "d" ("e" ∷ [])
    else meta s []

abbrev deps : String → List String
deps s =
    if str_eq s "a"
    then "b" ∷ "d" ∷ []
    else if str_eq s "b"
    then "d" ∷ []
    else if str_eq s "d"
    then "e" ∷ []
    else []

abbrev repo : Repository
repo = record { dir = ok []; read_addon_meta = read_addon_meta; find_string = λ p s. "" }

-- The addon `b` comes before `d`, which it depends on.
wrong_order : with_dependencies repo 5 ("a" ∷ []) ("a" ∷ []) ≡ done ("e" ∷ "b" ∷ "d" ∷ "a" ∷ [])
unfolding with_dependencies check_addon_dependency walk_meta merge_all merge_slice merge_from add
    has
wrong_order = refl

-- two addons that depend on each other
abbrev read_cycle : String → Option AddonMeta
read_cycle s = if str_eq s "x" then meta "x" ("y" ∷ []) else meta s ("x" ∷ [])

cycle : Depends (named read_cycle) "x" "x"
unfolding named has
cycle = through {d = "y"} refl (direct refl)

cycle_never_ends_example : ¬ Ended (check_addon_dependency read_cycle 100 "x")
cycle_never_ends_example = cycle_never_ends read_cycle 100 "x" cycle

-- a repository in which only `velaux` has a dependency
abbrev needs : String → List String
needs s = if str_eq s "velaux" then "fluxcd" ∷ [] else []

abbrev read_needs : String → Option AddonMeta
read_needs s = some (record { name = s; dependencies = needs s })

abbrev small : Repository
small = record repo { read_addon_meta = read_needs }

abbrev rank : String → ℕ
rank s = if str_eq s "velaux" then 1 else 0

abbrev Anything : String → Type 0
Anything s = Unit

needs_smaller : (a d : String) → has d (needs a) ≡ true → rank d < rank a
unfolding has
needs_smaller a d e = elim (Bool-cases (str_eq a "velaux")) [
  | inl is ↦ elim (or_cases (str_eq "fluxcd" d) false (rw is at e)) [
    | inl same ↦ rw (is, sym ((str_eq_iff "fluxcd" d).0 same)) (omega arith)
    | inr none_left ↦ absurd (cc none_left)
  ]
  | inr other ↦ absurd (cc (rw other at e))
]

acyclic : IsAcyclic read_needs needs Anything rank
acyclic = record {
  meta = λ a k. (record { name = a; dependencies = needs a }, refl, refl);
  known = λ a d k e. tt;
  smaller = λ a d k e. needs_smaller a d e;
}

dependency_walk_ends_example :
    IsClosure read_needs needs Anything rank "velaux" (check_addon_dependency read_needs 2 "velaux")
dependency_walk_ends_example =
    dependency_walk_ends read_needs needs Anything rank 2 "velaux" acyclic tt (omega arith)

velaux_known : (a : String) → has a ("velaux" ∷ []) ≡ true → Anything a × (rank a < 2)
unfolding has
velaux_known a e = (tt, ground arith)

with_dependencies-IsNeeded_example :
    IsNeeded small needs Anything rank
      ("velaux" ∷ [])
      ("velaux" ∷ [])
      (with_dependencies small 2 ("velaux" ∷ []) ("velaux" ∷ []))
with_dependencies-IsNeeded_example =
    with_dependencies-IsNeeded small needs Anything rank 2 ("velaux" ∷ []) ("velaux" ∷ []) acyclic
      velaux_known

abbrev broken : Error
broken = server 1 "exit status 1"

-- each command fails
abbrev api : Api
api = record {
  run = λ command h. unsuccessful broken;
  stat = λ file h. is_missing;
  fetch_index = λ url h. ok [];
}

enable_addons_by_order_lem_example :
    (enable_addons_by_order api ("loki" ∷ []) "" ("velaux" ∷ "loki" ∷ []) true []).0
    ≡ stop (failing api broken (λ dir. true) ("loki" ∷ []) "" ("velaux" ∷ "loki" ∷ []), none)
enable_addons_by_order_lem_example =
    enable_addons_by_order_lem api broken (λ dir. true) ("loki" ∷ []) "" ("velaux" ∷ "loki" ∷ []) []
      (record { runs = λ dir h. refl; untested = λ file h. refl })

abbrev change : List String
change = "addons/velaux/template.cue" ∷ "addons/velaux/metadata.yaml" ∷ "README.md" ∷ []

check_upgrade_addon_version_iff_example :
    (check_upgrade_addon_version change ≡ none) ↔ All (IsUpgraded change) change
check_upgrade_addon_version_iff_example = check_upgrade_addon_version_iff change

-- Without the metadata, the change is refused.
refused :
    check_upgrade_addon_version ("addons/velaux/template.cue" ∷ [])
    ≡ some (not_upgraded "addons/velaux/template.cue" "velaux")
unfolding check_upgrade_addon_version check_files check_addon demand join clean split
    join_with_slashes has has_prefix
refused = refl
