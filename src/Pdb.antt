-- ===== src/Pdb.antt =====
-- The PodDisruptionBudgetTrait
-- (legacy/traits/poddisruptionbudgettrait/api/v1alpha2/poddisruptionbudgettrait_types.go), the
-- resources that its controller reads, and the server as it uses it.
pub mod Selector
pub mod Reconcile
mod Examples
use kubevela_catalog.Base.{String, List, Option, Bool}
use kubevela_catalog.Base.Int.{ℤ}
use kubevela_catalog.Base.Exec.{Result}
use kubevela_catalog.K8s.{
  Error, ObjectMeta, TypedReference, NamespacedName, Unstructured, Condition, IntOrString, Labels,
  Kube,
}

pub record Spec : Type 0 where
  pub min_available : Option IntOrString
  pub max_unavailable : Option IntOrString
  pub workload_reference : TypedReference

pub record Trait : Type 0 where
  pub meta : ObjectMeta
  pub spec : Spec
  pub resources : List TypedReference

-- The values that an unstructured object may hold, which are those of JSON: nil, a Boolean, a
-- number, a string, an []interface{} and a map[string]interface{}.
mutual
  pub data Json : Type 0 where
    null : Json
    boolean : Bool → Json
    number : ℤ → Json
    text : String → Json
    array : Array → Json
    object : Object → Json

  pub data Array : Type 0 where
    empty_array : Array
    item : Json → Array → Array

  pub data Object : Type 0 where
    empty_object : Object
    member : String → Json → Object → Object

-- an unstructured object with its fields
pub record Resource : Type 0 where
  pub meta : Unstructured
  pub content : Object

-- metav1.LabelSelectorRequirement
pub record LabelSelectorRequirement : Type 0 where
  pub requirement_key : String
  pub operator : String
  pub values : List String

-- metav1.LabelSelector, whose map and slice may be nil
pub record LabelSelector : Type 0 where
  pub match_labels : Option Labels
  pub match_expressions : Option (List LabelSelectorRequirement)

-- policy/v1beta1.PodDisruptionBudget
pub record PodDisruptionBudget : Type 0 where
  pub name : String
  pub namespace : String
  pub labels : Labels
  pub min_available : Option IntOrString
  pub max_unavailable : Option IntOrString
  pub selector : Option LabelSelector

pub data Call : Type 0 where
  get_trait : NamespacedName → Call
  fetch_workload : Trait → Call
  fetch_children : Unstructured → Call
  patch_budget : PodDisruptionBudget → Call
  update_status : Trait → Call
  patch_condition : Trait → Condition → Call

pub record Api : Type 0 where
  pub kube : Kube
  pub open kube use *
  pub get_trait : NamespacedName → List Call → Result Error Trait
  -- util.FetchWorkload and util.FetchWorkloadChildResources
  pub fetch_workload : Trait → List Call → Result Error Unstructured
  pub fetch_children : Unstructured → List Call → Result Error (List Resource)
  -- a patch and an update put the server's answer into the object
  pub patch_budget : PodDisruptionBudget → List Call → Result Error TypedReference
  pub update_status : Trait → List Call → Result Error Trait
  pub patch_condition : Trait → Condition → List Call → Option Error
  -- ctrl.SetControllerReference: an error, or the object with the reference
  pub own : Trait → PodDisruptionBudget → Result Error PodDisruptionBudget
  pub err_fetch_child_resources : String
