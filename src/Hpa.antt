-- ===== src/Hpa.antt =====
-- The HorizontalPodAutoscalerTrait
-- (legacy/traits/hpatrait/api/v1alpha2/horizontalpodautoscalertrait_types.go), the autoscalers that
-- its controller makes, and the server as it uses it.
pub mod Render
pub mod Reconcile
mod Examples
use kubevela_catalog.Base.{String, List, Option, Bool}
use kubevela_catalog.Base.Int.{ℤ}
use kubevela_catalog.Base.Exec.{Result}
use kubevela_catalog.K8s.{
  Error, ObjectMeta, TypedReference, NamespacedName, Unstructured, Condition, Kube,
}

pub record Spec : Type 0 where
  pub min_replicas : Option ℤ
  pub max_replicas : ℤ
  pub target_cpu_utilization_percentage : Option ℤ
  pub workload_reference : TypedReference

pub record Trait : Type 0 where
  pub meta : ObjectMeta
  pub spec : Spec
  pub resources : List TypedReference

-- autoscalingv1.CrossVersionObjectReference
pub record ScaleTarget : Type 0 where
  pub kind : String
  pub name : String
  pub api_version : String

-- autoscalingv1.HorizontalPodAutoscaler
pub record Hpa : Type 0 where
  pub kind : String
  pub name : String
  pub namespace : String
  pub labels : List (String × String)
  pub scale_target_ref : ScaleTarget
  pub min_replicas : Option ℤ
  pub max_replicas : ℤ
  pub target_cpu_utilization_percentage : Option ℤ

-- An appsv1.Deployment as far as it is read: its name, and for each container whether it has
-- resource requests.
pub record Deployment : Type 0 where
  pub name : String
  pub have_requests : List Bool

pub data Call : Type 0 where
  get_trait : NamespacedName → Call
  get_workload : TypedReference → NamespacedName → Call
  fetch_workload_definition : Unstructured → Call
  patch_hpa : Hpa → Call
  update_status : Trait → Call
  get_hpa : NamespacedName → Call
  delete_hpa : Unstructured → Call
  patch_condition : Trait → Condition → Call

pub record Api : Type 0 where
  pub kube : Kube
  pub open kube use *
  pub get_trait : NamespacedName → List Call → Result Error Trait
  pub get_workload : TypedReference → NamespacedName → List Call → Result Error Unstructured
  pub fetch_workload_definition : Unstructured → List Call → Result Error (List Unstructured)
  -- a patch and an update put the server's answer into the object
  pub patch_hpa : Hpa → List Call → Result Error TypedReference
  pub update_status : Trait → List Call → Result Error Trait
  pub get_hpa : NamespacedName → List Call → Result Error Unstructured
  pub delete_hpa : Unstructured → List Call → Option Error
  pub patch_condition : Trait → Condition → List Call → Option Error
  -- json.Marshal and json.Unmarshal into an appsv1.Deployment
  pub decode_deployment : Unstructured → Result Error Deployment
  -- ctrl.SetControllerReference: an error, or the object with the reference
  pub own : Trait → Hpa → Result Error Hpa
  -- autoscalingv1.SchemeGroupVersion.String()
  pub group_version_hpa : String
