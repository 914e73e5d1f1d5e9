-- ===== src/AddonTest/Dependency/Closure.antt =====
-- That the walk over the dependencies ends, and what it finds.
use mathlib.Core.Path.{subst}
use kubevela_catalog.Base.{
  ℕ, zero, suc, ◌<◌, ◌≡◌, ◌⊎◌, inl, inr, String, List, [], ◌∷◌, Option, some, true, false, refl,
  arith, str_eq, str_eq_iff, str_eq_refl, sym, ◌∙◌, or_left, or_right, or_cases,
}
use kubevela_catalog.AddonTest.{AddonMeta}
use kubevela_catalog.AddonTest.Slice.{has, merge_slice, has-merge_slice}
use kubevela_catalog.AddonTest.Dependency.{Walk, done, merge_all, walk_meta, check_addon_dependency}

-- `Depends a b`: b is a dependency of a, or of one of its dependencies, and so on.
pub data Depends (deps : String → List String) : String → String → Type 0 where
  direct : {a b : String} → has b (deps a) ≡ true → Depends deps a b
  through : {a d b : String} → has d (deps a) ≡ true → Depends deps d b → Depends deps a b

pub has_head : (d : String) (rest : List String) → has d (d ∷ rest) ≡ true
unfolding has
has_head d rest = or_left (str_eq d d) (has d rest) (str_eq_refl d)

pub has_tail : (x d : String) (rest : List String) → has x rest ≡ true → has x (d ∷ rest) ≡ true
unfolding has
has_tail x d rest e = or_right (str_eq d x) (has x rest) e

module _ (read_addon_meta : String → Option AddonMeta) (deps : String → List String)
    (Known : String → Type 0) (rank : String → ℕ) where
  -- The files of the known addons can be read, their dependencies are known, and a dependency has a
  -- smaller rank: there is no cycle.
  pub record IsAcyclic : Type 0 where
    pub meta :
        (a : String)
        → Known a
        → (m : AddonMeta) × (read_addon_meta a ≡ some m) × (m.dependencies ≡ deps a)
    pub known : (a d : String) → Known a → has d (deps a) ≡ true → Known d
    pub smaller : (a d : String) → Known a → has d (deps a) ≡ true → rank d < rank a

  -- what the slice holds
  pub record IsClosure (a : String) (w : Walk) : Type 0 where
    pub found : List String
    pub ends : w ≡ done found
    pub sound : (b : String) → has b found ≡ true → Depends deps a b
    pub complete : (b : String) → Depends deps a b → has b found ≡ true

  -- the same for the loop, which has some names and adds those that its addons depend on
  record IsUnion (start rest : List String) (w : Walk) : Type 0 where
    pub found : List String
    pub ends : w ≡ done found
    pub sound :
        (b : String)
        → has b found ≡ true
        → (has b start ≡ true) ⊎ ((d : String) × (has d rest ≡ true) × Depends deps d b)
    pub kept : (b : String) → has b start ≡ true → has b found ≡ true
    pub added : (b d : String) → has d rest ≡ true → Depends deps d b → has b found ≡ true

  merge_all-IsUnion :
      (check : String → Walk) (rest start : List String)
      → ((d : String) → has d rest ≡ true → IsClosure d (check d))
      → IsUnion start rest (merge_all check rest start)
  unfolding merge_all has
  merge_all-IsUnion check [] start closed = record {
    found = start;
    ends = refl;
    sound = λ b e. inl e;
    kept = λ b e. e;
    added = λ b d e. absurd (cc e);
  }
  merge_all-IsUnion check (d ∷ rest) start closed =
      let below = closed d (has_head d rest) in
      let start' = merge_slice false below.found start in
      let more = merge_all-IsUnion check rest start' (λ e m. closed e (has_tail e d rest m)) in
      let merged = λ (b : String). has-merge_slice false b below.found start in
      rw below.ends (record {
        found = more.found;
        ends = more.ends;
        sound = λ b e. elim (more.sound b e) [
          | inl m ↦ elim (or_cases (has b below.found) (has b start) (sym (merged b) ∙ m)) [
            | inl n ↦ inr (d, has_head d rest, below.sound b n)
            | inr n ↦ inl n
          ]
          | inr (x, m, p) ↦ inr (x, has_tail x d rest m, p)
        ];
        kept = λ b e. more.kept b (merged b ∙ or_right (has b below.found) (has b start) e);
        added = λ b x m p. elim (or_cases (str_eq d x) (has x rest) m) [
          | inl same ↦ more.kept b (
              merged b
              ∙ or_left (has b below.found) (has b start) (
                  below.complete b
                    (subst (λ y. Depends deps y b) (sym ((str_eq_iff d x).0 same)) p)))
          | inr m ↦ more.added b x m p
        ];
      })

  -- what a closure is made of: the dependencies, and what the loop adds to them
  close : (a : String) (w : Walk) → IsUnion (deps a) (deps a) w → IsClosure a w
  close a w u = record {
    found = u.found;
    ends = u.ends;
    sound = λ b e. elim (u.sound b e) [ inl m ↦ direct m | inr (d, m, p) ↦ through m p ];
    complete = covers;
  }
    where
      covers : (b : String) → Depends deps a b → has b u.found ≡ true
      covers b (direct m) = u.kept b m
      covers b (through {d = d} m p) = u.added b d m p

  -- If the files of the known addons can be read, their dependencies are known, and each dependency
  -- has a smaller rank than its addon, then the walk from a known addon ends with a slice, in at
  -- most as many nested calls as one more than its rank; the slice holds exactly the addons that it
  -- depends on, directly or not.
  pub dependency_walk_ends :
      (fuel : ℕ) (a : String)
      → IsAcyclic
      → Known a
      → rank a < fuel
      → IsClosure a (check_addon_dependency read_addon_meta fuel a)
  unfolding check_addon_dependency walk_meta
  dependency_walk_ends zero a acyclic known h = elim h [ ]
  dependency_walk_ends (suc fuel) a acyclic known h =
      let (m, read, same) = acyclic.meta a known in
      let below : (d : String)
          → has d (deps a) ≡ true
          → IsClosure d (check_addon_dependency read_addon_meta fuel d) =
        λ d e.
          let lower = acyclic.smaller a d known e in
          dependency_walk_ends fuel d acyclic (acyclic.known a d known e) (omega (arith, lower)) in
      rw (read, same)
        (close a _
          (merge_all-IsUnion (check_addon_dependency read_addon_meta fuel) (deps a) (deps a) below))
