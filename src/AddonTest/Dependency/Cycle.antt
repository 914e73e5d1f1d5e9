-- ===== src/AddonTest/Dependency/Cycle.antt =====
-- That the walk over the dependencies of an addon does not end with a slice on a cycle.
use mathlib.Core.Path.{subst}
use kubevela_catalog.Base.{
  ℕ, zero, suc, ◌<◌, ◌≡◌, inl, inr, String, List, [], ◌∷◌, Option, none, some, true, false, refl,
  arith, str_eq, str_eq_iff, or_cases,
}
use kubevela_catalog.AddonTest.{AddonMeta}
use kubevela_catalog.AddonTest.Slice.{has, merge_slice}
use kubevela_catalog.AddonTest.Dependency.{
  Walk, done, panics, out_of_fuel, after_walk, merge_all, walk_meta, check_addon_dependency,
}
use kubevela_catalog.AddonTest.Dependency.Closure.{Depends, direct, through}

-- the walk ended with a slice
pub Ended : Walk → Type 0
Ended w = (found : List String) × (w ≡ done found)

-- the dependencies that the file of an addon names, none if it cannot be read
abbrev pub named_by : Option AddonMeta → List String
named_by none = []
named_by (some meta) = meta.dependencies

after_walk-Ended :
    (w : Walk) (rest : List String → Walk)
    → Ended (after_walk w rest)
    → Ended w × ((below : List String) × Ended (rest below))
unfolding Ended
after_walk-Ended (done below) rest ended = ((below, refl), (below, ended))
after_walk-Ended panics rest (found, e) = absurd (cc e)
after_walk-Ended out_of_fuel rest (found, e) = absurd (cc e)

-- when the loop has ended, so has each of its calls
merge_all-Ended :
    (check : String → Walk) (rest start : List String) (d : String)
    → Ended (merge_all check rest start)
    → has d rest ≡ true
    → Ended (check d)
unfolding merge_all has
merge_all-Ended check [] start d ended m = absurd (cc m)
merge_all-Ended check (x ∷ rest) start d ended m =
    let (first, (below, others)) = after_walk-Ended (check x) _ ended in
    elim (or_cases (str_eq x d) (has d rest) m) [
      | inl same ↦ subst (λ y. Ended (check y)) ((str_eq_iff x d).0 same) first
      | inr n ↦ merge_all-Ended check rest (merge_slice false below start) d others n
    ]

walk_meta-Ended :
    (check : String → Walk) (meta : Option AddonMeta) (d : String)
    → Ended (walk_meta check meta)
    → has d (named_by meta) ≡ true
    → Ended (check d)
unfolding walk_meta has
walk_meta-Ended check none d ended m = absurd (cc m)
walk_meta-Ended check (some meta) d ended m =
    merge_all-Ended check meta.dependencies meta.dependencies d ended m

module _ (read_addon_meta : String → Option AddonMeta) where
  unfoldable pub named : String → List String
  named a = named_by (read_addon_meta a)

  walk : ℕ → String → Walk
  walk fuel a = check_addon_dependency read_addon_meta fuel a

  -- A walk that ended has, with less fuel, ended for each addon that it depends on.
  walk-Ended :
      (fuel : ℕ) (a b : String)
      → Ended (walk fuel a)
      → Depends named a b
      → (less : ℕ) × (less < fuel) × Ended (walk less b)
  unfolding walk named check_addon_dependency Ended
  walk-Ended zero a b (found, e) p = absurd (cc e)
  walk-Ended (suc fuel) a b ended (direct m) =
      (fuel, omega arith, walk_meta-Ended _ (read_addon_meta a) b ended m)
  walk-Ended (suc fuel) a b ended (through {d = d} m p) =
      let below = walk_meta-Ended _ (read_addon_meta a) d ended m in
      let (less, lower, ends) = walk-Ended fuel d b below p in (less, omega (arith, lower), ends)

  cycle_needs_fuel :
      (bound fuel : ℕ) (a : String) → fuel < bound → Depends named a a → ¬ Ended (walk fuel a)
  cycle_needs_fuel zero fuel a h p ended = elim h [ ]
  cycle_needs_fuel (suc bound) fuel a h p ended =
      let (less, lower, ends) = walk-Ended fuel a a ended p in
      cycle_needs_fuel bound less a (omega (arith, h, lower)) p ends

  -- If an addon depends on itself, directly or through others, then the walk over its dependencies
  -- ends with a slice after no number of nested calls.
  pub cycle_never_ends :
      (fuel : ℕ) (a : String)
      → Depends named a a
      → ¬ Ended (check_addon_dependency read_addon_meta fuel a)
  unfolding walk
  cycle_never_ends fuel a p = cycle_needs_fuel (suc fuel) fuel a (omega arith) p
