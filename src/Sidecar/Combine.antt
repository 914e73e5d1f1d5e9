-- ===== src/Sidecar/Combine.antt =====
-- Combining the sidecar's container and volumes with those of a resource.
pub mod Again
use kubevela_catalog.Base.{
  ℕ, ◌+◌, String, List, [], ◌∷◌, ◌++◌, Option, none, some, Bool, false, str_eq, set, if◌then◌else◌,
}
use kubevela_catalog.Base.Exec.{Result, ok, err}
use kubevela_catalog.K8s.{Error}
use kubevela_catalog.Sidecar.{Entry, Item}

-- the comparison of the item's name with the entry "name", which may be missing
unfoldable pub has_name : String → Entry → Bool
has_name name e = elim e.name [ none ↦ false | some n ↦ str_eq name n ]

-- the index of the first entry with the name, counted from the given one
unfoldable pub find_repeat : String → List Entry → ℕ → Option ℕ
find_repeat name [] i = none
find_repeat name (e ∷ es) i = if has_name name e then some i else find_repeat name es (i + 1)

unfoldable pub replace_or_append : List Entry → Option ℕ → Entry → List Entry
replace_or_append es none new = es ++ new ∷ []
replace_or_append es (some i) new = set es i new

-- struct2Unmarshal, which encodes an item, is a parameter
module _ (encode : Item → Result Error Entry) where
  unfoldable pub combine_encoded : List Entry → String → Result Error Entry → List Entry
  unfolding find_repeat replace_or_append
  combine_encoded es name (err e) = es
  combine_encoded es name (ok new) = replace_or_append es (find_repeat name es 0) new

  unfoldable pub combine_containers : List Entry → Item → List Entry
  unfolding combine_encoded
  combine_containers es container = combine_encoded es container.name (encode container)

  -- An item that cannot be encoded is skipped.
  unfoldable pub combine_volumes : List Entry → List Item → List Entry
  unfolding combine_encoded
  combine_volumes es [] = es
  combine_volumes es (v ∷ vs) = combine_volumes (combine_encoded es v.name (encode v)) vs
