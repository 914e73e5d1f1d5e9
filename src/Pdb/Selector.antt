-- ===== src/Pdb/Selector.antt =====
-- The label selector of a resource
-- (getLabelSelector of legacy/traits/poddisruptionbudgettrait/controllers/poddisruptionbudget.go).
pub mod Written
use kubevela_catalog.Base.{String, List, [], ◌∷◌, Option, none, some, str_eq, if◌then◌else◌}
use kubevela_catalog.Base.Exec.{Exec, Func, pure, return, fault, ◌>>=◌}
use kubevela_catalog.K8s.{Labels}
use kubevela_catalog.Pdb.{
  Json, null, text, array, object, Array, empty_array, item, Object, empty_object, member,
  LabelSelectorRequirement, LabelSelector, Call,
}

-- the entry of a map
unfoldable pub lookup : String → Object → Option Json
lookup k empty_object = none
lookup k (member n v o) = if str_eq k n then some v else lookup k o

-- the type assertions to a map, a slice and a string, which panic on any other value
module _ {R : Type 0} where
  unfoldable pub as_object : Json → Exec Call R Object
  as_object (object o) = pure o
  as_object _ = fault

  unfoldable pub as_array : Json → Exec Call R Array
  as_array (array a) = pure a
  as_array _ = fault

  unfoldable pub as_text : Json → Exec Call R String
  as_text (text s) = pure s
  as_text _ = fault

  -- `lsr.(metav1.LabelSelectorRequirement)`: no value of JSON is of this type
  unfoldable pub as_requirement : Json → Exec Call R LabelSelectorRequirement
  as_requirement j = fault

  unfoldable pub texts_of : Object → Exec Call R Labels
  texts_of empty_object = pure []
  texts_of (member k j o) = do v ← as_text j; rest ← texts_of o; pure ((k, v) ∷ rest)

  unfoldable pub requirements_of : Array → Exec Call R (List LabelSelectorRequirement)
  requirements_of empty_array = pure []
  requirements_of (item j a) = do r ← as_requirement j; rest ← requirements_of a; pure (r ∷ rest)

  -- `v, exist := selectorMap["matchLabels"]` and what follows
  unfoldable pub match_labels_of : Option Json → Exec Call R (Option Labels)
  match_labels_of none = pure none
  match_labels_of (some j) = do o ← as_object j; labels ← texts_of o; pure (some labels)

  unfoldable pub match_expressions_of :
      Option Json → Exec Call R (Option (List LabelSelectorRequirement))
  match_expressions_of none = pure none
  match_expressions_of (some j) = do a ← as_array j; rs ← requirements_of a; pure (some rs)

-- `if spec == nil { return nil }`: a missing entry and a null
unfoldable pub present : Option Json → Exec Call (Option LabelSelector) Json
present none = return none
present (some null) = return none
present (some j) = pure j

unfoldable pub get_label_selector : Object → Func Call (Option LabelSelector)
get_label_selector content = do
  spec ← present (lookup "spec" content)
  spec_map ← as_object spec
  selector ← present (lookup "selector" spec_map)
  selector_map ← as_object selector
  labels ← match_labels_of (lookup "matchLabels" selector_map)
  expressions ← match_expressions_of (lookup "matchExpressions" selector_map)
  return (some (record { match_labels = labels; match_expressions = expressions }))
