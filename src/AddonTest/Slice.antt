-- ===== src/AddonTest/Slice.antt =====
-- MergeSlice of test/e2e-test/addon-test/main.go.
use kubevela_catalog.Base.{
  String, List, [], ◌∷◌, ◌++◌, Bool, true, false, ◌||◌, ◌≡◌, refl, arith, str_eq, str_eq_iff,
  if◌then◌else◌,
}

-- the set of the names of a slice
unfoldable pub has : String → List String → Bool
has x [] = false
has x (y ∷ ys) = str_eq y x || has x ys

unfoldable pub add : Bool → Bool → List String → String → List String
add right present source t =
    if present then source else if right then source ++ t ∷ [] else t ∷ source

-- The loop over the target. The set is made of the source as it was before the loop.
unfoldable pub merge_from : Bool → List String → List String → List String → List String
merge_from right before source [] = source
merge_from right before source (t ∷ ts) =
    merge_from right before (add right (has t before) source t) ts

unfoldable pub merge_slice : Bool → List String → List String → List String
merge_slice right [] target = target
merge_slice right (s ∷ ss) [] = s ∷ ss
merge_slice right (s ∷ ss) (t ∷ ts) = merge_from right (s ∷ ss) (s ∷ ss) (t ∷ ts)

has-append : (x : String) (xs ys : List String) → has x (xs ++ ys) ≡ (has x xs || has x ys)
unfolding has
has-append x [] ys = refl
has-append x (z ∷ xs) ys = ground (arith, has-append x xs ys)

has-add :
    (right present : Bool) (x t : String) (source : List String)
    → has x (add right present source t) ≡ (has x source || (if present then false else str_eq t x))
unfolding add has
has-add right true x t source = ground arith
has-add true false x t source = ground (arith, has-append x source (t ∷ []))
has-add false false x t source = ground arith

has_same : (x t : String) (xs : List String) → str_eq t x ≡ true → has t xs ≡ has x xs
has_same x t xs e = rw ((str_eq_iff t x).0 e) refl

has-merge_from :
    (right : Bool) (x : String) (before source ts : List String)
    → (has x before ≡ true → has x source ≡ true)
    → has x (merge_from right before source ts) ≡ (has x source || has x ts)
unfolding merge_from has
has-merge_from right x before source [] kept = ground arith
has-merge_from right x before source (t ∷ ts) kept =
    let added = has-add right (has t before) x t source in
    let rest =
      has-merge_from right x before (add right (has t before) source t) ts
        (λ e. rw added (ground (arith, kept e))) in
    ground (arith, rest, added, has_same x t before)

-- Merging two slices, on either side, yields the names of both.
pub has-merge_slice :
    (right : Bool) (x : String) (source target : List String)
    → has x (merge_slice right source target) ≡ (has x source || has x target)
unfolding merge_slice has
has-merge_slice right x [] target = refl
has-merge_slice right x (s ∷ ss) [] = ground arith
has-merge_slice right x (s ∷ ss) (t ∷ ts) =
    has-merge_from right x (s ∷ ss) (s ∷ ss) (t ∷ ts) (λ e. e)
