-- ===== src/AddonTest/Affected/Needed.antt =====
-- That the addons to be tested come with all that they depend on.
use mathlib.Core.Path.{subst}
use kubevela_catalog.Base.{
  ℕ, ◌<◌, ◌≡◌, ◌⊎◌, inl, inr, String, List, [], ◌∷◌, true, refl, sym, ◌∙◌, str_eq, str_eq_iff,
  false, or_left, or_right, or_cases,
}
use kubevela_catalog.AddonTest.{Repository}
use kubevela_catalog.AddonTest.Slice.{has, merge_slice, has-merge_slice}
use kubevela_catalog.AddonTest.Dependency.{Walk, done}
use kubevela_catalog.AddonTest.Dependency.Closure.{
  Depends, IsAcyclic, has_head, has_tail, dependency_walk_ends,
}
use kubevela_catalog.AddonTest.Affected.{with_dependencies}

module _ (repo : Repository) (deps : String → List String) (Known : String → Type 0)
    (rank : String → ℕ) where
  -- the slice has the names that it started with and all that the addons of `todo` depend on
  pub record IsNeeded (start todo : List String) (w : Walk) : Type 0 where
    pub found : List String
    pub ends : w ≡ done found
    pub kept : (b : String) → has b start ≡ true → has b found ≡ true
    pub added : (a b : String) → has a todo ≡ true → Depends deps a b → has b found ≡ true
    pub only :
        (b : String)
        → has b found ≡ true
        → (has b start ≡ true) ⊎ ((a : String) × (has a todo ≡ true) × Depends deps a b)

  -- If the files of the known addons can be read and their dependencies have no cycle, then for
  -- known addons and enough fuel the last loop of determineNeedEnableAddon ends, and its slice holds
  -- exactly the addons that it started with and those that the addons of the loop depend on.
  pub with_dependencies-IsNeeded :
      (fuel : ℕ) (todo start : List String)
      → IsAcyclic repo.read_addon_meta deps Known rank
      → ((a : String) → has a todo ≡ true → Known a × (rank a < fuel))
      → IsNeeded start todo (with_dependencies repo fuel todo start)
  unfolding with_dependencies has
  with_dependencies-IsNeeded fuel [] start acyclic known = record {
    found = start;
    ends = refl;
    kept = λ b e. e;
    added = λ a b e. absurd (cc e);
    only = λ b e. inl e;
  }
  with_dependencies-IsNeeded fuel (a ∷ rest) start acyclic known =
      let (is_known, lower) = known a (has_head a rest) in
      let closure =
        dependency_walk_ends repo.read_addon_meta deps Known rank fuel a acyclic is_known lower in
      let start' = merge_slice false start closure.found in
      let more =
        with_dependencies-IsNeeded fuel rest start' acyclic
          (λ x m. known x (has_tail x a rest m)) in
      let merged = λ (b : String). has-merge_slice false b start closure.found in
      rw closure.ends (record {
        found = more.found;
        ends = more.ends;
        kept = λ b e. more.kept b (merged b ∙ or_left (has b start) (has b closure.found) e);
        added = λ x b m p. elim (or_cases (str_eq a x) (has x rest) m) [
          | inl same ↦ more.kept b (
              merged b
              ∙ or_right (has b start) (has b closure.found) (
                  closure.complete b
                    (subst (λ y. Depends deps y b) (sym ((str_eq_iff a x).0 same)) p)))
          | inr n ↦ more.added x b n p
        ];
        only = λ b e. elim (more.only b e) [
          | inl m ↦ elim (or_cases (has b start) (has b closure.found) (sym (merged b) ∙ m)) [
            | inl n ↦ inl n
            | inr n ↦ inr (a, has_head a rest, closure.sound b n)
          ]
          | inr (x, m, p) ↦ inr (x, has_tail x a rest m, p)
        ];
      })
