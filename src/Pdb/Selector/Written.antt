-- ===== src/Pdb/Selector/Written.antt =====
-- The selector that is read from the labels and expressions of a resource.
use kubevela_catalog.Base.{List, [], ◌∷◌, Option, none, some, ◌≡◌, ◌⊎◌, inl, inr, refl}
use kubevela_catalog.Base.Exec.{Ctl, next, stop, panic, ◌>>=◌}
use kubevela_catalog.K8s.{Labels}
use kubevela_catalog.Pdb.{
  LabelSelector, Json, text, array, object, Array, item, Object, empty_object, member, Call,
}
use kubevela_catalog.Pdb.Selector.{
  lookup, as_object, as_array, as_text, as_requirement, texts_of, requirements_of, match_labels_of,
  match_expressions_of, present, get_label_selector,
}

-- labels as a map of JSON
abbrev pub labels_json : Labels → Object
labels_json [] = empty_object
labels_json ((k, v) ∷ ls) = member k (text v) (labels_json ls)

-- `spec.selector` holds these entries.
pub record HasSelector (content selector : Object) (ls : Labels) : Type 0 where
  pub spec : Object
  pub spec_found : lookup "spec" content ≡ some (object spec)
  pub selector_found : lookup "selector" spec ≡ some (object selector)
  pub labels_found : lookup "matchLabels" selector ≡ some (object (labels_json ls))

texts_of-labels_json :
    {R : Type 0} (ls : Labels) (h : List Call) → texts_of {R = R} (labels_json ls) h ≡ (next ls, h)
unfolding texts_of as_text ◌>>=◌
texts_of-labels_json {R = R} [] h = refl
texts_of-labels_json {R = R} ((k, v) ∷ ls) h = rw (texts_of-labels_json {R = R} ls h) refl

-- The labels of a selector without expressions are read back as they were written, whatever else
-- the resource holds.
pub get_label_selector-labels_json :
    (content selector : Object) (ls : Labels) (h : List Call)
    → HasSelector content selector ls
    → lookup "matchExpressions" selector ≡ none
    → get_label_selector content h
      ≡ (stop (some (record { match_labels = some ls; match_expressions = none })), h)
unfolding get_label_selector present as_object match_labels_of match_expressions_of ◌>>=◌
get_label_selector-labels_json content selector ls h has no_expressions =
    rw (has.spec_found, has.selector_found, has.labels_found)
      (rw (texts_of-labels_json ls h) (rw no_expressions refl))

-- `spec.selector` is an object with an expression; its labels may be missing or anything.
pub record HasExpression (content : Object) : Type 0 where
  pub spec : Object
  pub selector : Object
  pub first : Json
  pub more : Array
  pub spec_found : lookup "spec" content ≡ some (object spec)
  pub selector_found : lookup "selector" spec ≡ some (object selector)
  pub expressions_found : lookup "matchExpressions" selector ≡ some (array (item first more))

-- The labels are read, or the function panics; no call is made.
IsRead : {A : Type 0} → Ctl (Option LabelSelector) A × List Call → List Call → Type 0
IsRead {A = A} p h = ((a : A) × (p ≡ (next a, h))) ⊎ (p ≡ (panic, h))

texts_of-IsRead : (o : Object) (h : List Call) → IsRead (texts_of o h) h
unfolding IsRead texts_of as_text ◌>>=◌
texts_of-IsRead empty_object h = inl ([], refl)
texts_of-IsRead (member k (text v) o) h = elim (texts_of-IsRead o h) [
  | inl (ls, e) ↦ inl ((k, v) ∷ ls, rw e refl)
  | inr e ↦ inr (rw e refl)
]
texts_of-IsRead (member k j o) h = inr refl

match_labels_of-IsRead : (found : Option Json) (h : List Call) → IsRead (match_labels_of found h) h
unfolding IsRead match_labels_of as_object ◌>>=◌
match_labels_of-IsRead none h = inl (none, refl)
match_labels_of-IsRead (some (object o)) h = elim (texts_of-IsRead o h) [
  | inl (ls, e) ↦ inl (some ls, rw e refl)
  | inr e ↦ inr (rw e refl)
]
match_labels_of-IsRead (some j) h = inr refl

-- A selector with an expression makes the function panic, whatever its labels are.
pub expression_panics :
    (content : Object) (h : List Call)
    → HasExpression content
    → get_label_selector content h ≡ (panic, h)
unfolding IsRead get_label_selector present as_object match_expressions_of as_array requirements_of
    as_requirement ◌>>=◌
expression_panics content h has =
    rw (has.spec_found, has.selector_found)
      (elim (match_labels_of-IsRead (lookup "matchLabels" has.selector) h) [
        | inl (ls, e) ↦ rw (e, has.expressions_found) refl
        | inr e ↦ rw e refl
      ])
