-- ===== src/Rollout.antt =====
-- The data of the SimpleRolloutTrait and the server that its controller talks to
-- (legacy/traits/simplerollouttrait/api/v1alpha2/simplerollouttrait_types.go and
-- legacy/traits/simplerollouttrait/controllers). Pointers to numbers are `Option`.
pub mod Scale
pub mod Reconcile
pub mod World
mod Examples
use kubevela_catalog.Base.{String, List, Option, Bool}
use kubevela_catalog.Base.Int.{ℤ}
use kubevela_catalog.Base.Exec.{Result}
use kubevela_catalog.K8s.{
  Error, NamespacedName, TypedReference, IntOrString, Unstructured, Condition, Kube,
}

pub record RolloutHistory : Type 0 where
  pub revision : ℤ
  -- the raw extension, as text
  pub history_data : String

pub record Spec : Type 0 where
  pub replica : Option ℤ
  pub batch : Option IntOrString
  pub max_unavailable : Option IntOrString
  pub workload_reference : TypedReference

pub record Status : Type 0 where
  pub rollout_history : List RolloutHistory
  pub current_workload_reference : TypedReference

pub record Trait : Type 0 where
  pub name : String
  pub namespace : String
  pub spec : Spec
  pub status : Status

-- appsv1.Deployment: the fields that the controller reads
pub record Deployment : Type 0 where
  pub name : String
  pub replicas : Option ℤ
  pub available_replicas : ℤ
  pub ready_replicas : ℤ

-- The calls to the server. `get_workload` names the kind that is looked up.
pub data Call : Type 0 where
  get_trait : NamespacedName → Call
  get_workload : TypedReference → NamespacedName → Call
  fetch_workload_definition : Unstructured → Call
  get_controller_revision : NamespacedName → Call
  update_deployment : Deployment → Call
  delete_workload : Unstructured → Call
  update_status : Trait → Call
  patch_condition : Trait → Condition → Call

-- What the server answers, after the calls made before, and the JSON conversion.
pub record Api : Type 0 where
  pub kube : Kube
  pub open kube use *
  pub get_trait : NamespacedName → List Call → Result Error Trait
  pub get_workload : TypedReference → NamespacedName → List Call → Result Error Unstructured
  pub fetch_workload_definition : Unstructured → List Call → Result Error (List Unstructured)
  pub get_controller_revision : NamespacedName → List Call → Result Error RolloutHistory
  pub update_deployment : Deployment → List Call → Option Error
  pub delete_workload : Unstructured → List Call → Option Error
  -- the update puts the server's answer into the trait
  pub update_status : Trait → List Call → Result Error Trait
  pub patch_condition : Trait → Condition → List Call → Option Error
  -- json.Marshal and json.Unmarshal into an appsv1.Deployment
  pub decode_deployment : Unstructured → Result Error Deployment
