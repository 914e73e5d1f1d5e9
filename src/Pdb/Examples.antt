-- ===== src/Pdb/Examples.antt =====
-- The theorems on the PodDisruptionBudgetTrait's controller at concrete inputs.
use kubevela_catalog.Base.{[], ◌∷◌, none, some, false, ◌≡◌, refl}
use kubevela_catalog.Base.Int.{pos}
use kubevela_catalog.Base.Exec.{ok, stop, panic}
use kubevela_catalog.K8s.{key, reply, Labels, TypedReference, Unstructured, reconcile_success}
use kubevela_catalog.K8s.Sample.{kube}
use kubevela_catalog.Pdb.{
  Trait, Resource, Json, text, array, object, empty_array, item, Object, empty_object, member,
  get_trait, fetch_workload, fetch_children, patch_budget, update_status, patch_condition, Api,
}
use kubevela_catalog.Pdb.Selector.{lookup, get_label_selector}
use kubevela_catalog.Pdb.Selector.Written.{
  HasSelector, HasExpression, labels_json, get_label_selector-labels_json, expression_panics,
}
use kubevela_catalog.Pdb.Reconcile.{reconcile}
use kubevela_catalog.Pdb.Reconcile.Budget.{budget, recorded, budget_selects_labels}

abbrev reference : TypedReference
reference = record { api_version = "apps/v1"; kind = "Deployment"; name = "web"; uid = "w" }

abbrev made : TypedReference
made = record {
  api_version = "policy/v1beta1";
  kind = "PodDisruptionBudget";
  name = "pdb";
  uid = "b";
}

abbrev trait : Trait
trait = record {
  meta = record {
    api_version = "core.oam.dev/v1alpha2";
    kind = "PodDisruptionBudgetTrait";
    name = "pdb";
    namespace = "default";
    uid = "p";
    labels = [];
  };
  spec = record {
    min_available = some (record { is_string = false; int_val = pos 1; str_val = "" });
    max_unavailable = none;
    workload_reference = reference;
  };
  resources = [];
}

abbrev workload : Unstructured
workload = record {
  api_version = "apps/v1";
  kind = "Deployment";
  name = "web";
  namespace = "default";
  uid = "w";
  labels = [];
}

abbrev app : Labels
app = ("app", "web") ∷ ("tier", "front") ∷ []

abbrev selector : Object
selector = member "matchLabels" (object (labels_json app)) empty_object

abbrev strict : Object
strict = member "matchExpressions" (array (item (object empty_object) empty_array)) empty_object

abbrev spec_of : Object → Object
spec_of s = member "replicas" (Json.number (pos 2)) (member "selector" (object s) empty_object)

abbrev content_of : Object → Object
content_of s = member "kind" (text "Deployment") (member "spec" (object (spec_of s)) empty_object)

has_selector : HasSelector (content_of selector) selector app
unfolding lookup
has_selector = record {
  spec = spec_of selector;
  spec_found = refl;
  selector_found = refl;
  labels_found = refl;
}

has_expression : HasExpression (content_of strict)
unfolding lookup
has_expression = record {
  spec = spec_of strict;
  selector = strict;
  first = object empty_object;
  more = empty_array;
  spec_found = refl;
  selector_found = refl;
  expressions_found = refl;
}

no_expressions : lookup "matchExpressions" selector ≡ none
unfolding lookup
no_expressions = refl

abbrev deployment : Resource
deployment = record { meta = workload; content = content_of selector }

abbrev service : Resource
service = record {
  meta = record workload { api_version = "v1"; kind = "Service" };
  content = empty_object;
}

abbrev api : Api
api = record {
  kube = kube;
  get_trait = λ k h. ok trait;
  fetch_workload = λ t h. ok workload;
  fetch_children = λ u h. ok (service ∷ deployment ∷ []);
  patch_budget = λ b h. ok made;
  update_status = λ t h. ok t;
  patch_condition = λ t c h. none;
  own = λ t b. ok b;
  err_fetch_child_resources = "cannot fetch child resources";
}

abbrev without : Api
without = record api { fetch_children = λ u h. ok (service ∷ []) }

get_label_selector-labels_json_example :
    get_label_selector (content_of selector) []
    ≡ (stop (some (record { match_labels = some app; match_expressions = none })), [])
get_label_selector-labels_json_example =
    get_label_selector-labels_json (content_of selector) selector app [] has_selector no_expressions

expression_panics_example : get_label_selector (content_of strict) [] ≡ (panic, [])
expression_panics_example = expression_panics (content_of strict) [] has_expression

budget_selects_labels_example : reconcile api (key "default" "pdb") [] ≡ (
  stop (reply 0 none),
  patch_condition (recorded api trait app made) reconcile_success
      ∷ update_status (recorded api trait app made)
      ∷ patch_budget (budget api trait app made)
      ∷ fetch_children workload
      ∷ fetch_workload trait
      ∷ get_trait (key "default" "pdb")
      ∷ [],
)
budget_selects_labels_example =
    budget_selects_labels api trait app made (key "default" "pdb") workload (service ∷ []) []
      deployment selector
      (record { owns = refl; applies = λ h. refl; updates = λ h. refl; patches = λ h. refl }) refl
      (λ h. refl) (λ h. refl) (refl, tt) refl has_selector no_expressions
