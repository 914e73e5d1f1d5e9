-- ===== src/CronHpa.antt =====
-- The CronHPATrait (legacy/traits/cronhpatrait/api/v1alpha2/cronhpatrait_types.go), the autoscaler
-- that its controller makes, and the server as it uses it.
pub mod Render
pub mod Reconcile
mod Examples
use kubevela_catalog.Base.{String, List, Option, Bool}
use kubevela_catalog.Base.Int.{ℤ}
use kubevela_catalog.Base.Exec.{Result}
use kubevela_catalog.K8s.{
  Error, ObjectMeta, TypedReference, NamespacedName, Labels, Unstructured, Condition, Kube,
}

pub record Job : Type 0 where
  pub name : String
  pub schedule : String
  pub run_once : Bool
  pub target_size : ℤ

pub record Spec : Type 0 where
  pub exclude_dates : List String
  pub jobs : List Job
  pub workload_reference : TypedReference

pub record Trait : Type 0 where
  pub meta : ObjectMeta
  pub spec : Spec
  pub resources : List TypedReference

-- v1beta1.Job of the autoscaler
pub record TargetJob : Type 0 where
  pub name : String
  pub schedule : String
  pub run_once : Bool
  pub target_size : ℤ

-- v1beta1.ScaleTargetRef
pub record ScaleTarget : Type 0 where
  pub api_version : String
  pub kind : String
  pub name : String

-- v1beta1.CronHorizontalPodAutoscaler
pub record CronHpa : Type 0 where
  pub kind : String
  pub api_version : String
  pub name : String
  pub namespace : String
  pub labels : Labels
  pub exclude_dates : List String
  pub jobs : List TargetJob
  pub scale_target_ref : ScaleTarget

pub data Call : Type 0 where
  get_trait : NamespacedName → Call
  get_workload : TypedReference → NamespacedName → Call
  fetch_children : Unstructured → Call
  patch_cron_hpa : CronHpa → Call
  get_cron_hpa : NamespacedName → Call
  delete_cron_hpa : Unstructured → Call
  update_status : Trait → Call
  patch_condition : Trait → Condition → Call

pub record Api : Type 0 where
  pub kube : Kube
  pub open kube use *
  pub get_trait : NamespacedName → List Call → Result Error Trait
  pub get_workload : TypedReference → NamespacedName → List Call → Result Error Unstructured
  pub fetch_children : Unstructured → List Call → Result Error (List Unstructured)
  -- a patch puts the server's answer into the object: what is read of it afterwards
  pub patch_cron_hpa : CronHpa → List Call → Result Error TypedReference
  pub get_cron_hpa : NamespacedName → List Call → Result Error Unstructured
  pub delete_cron_hpa : Unstructured → List Call → Option Error
  pub update_status : Trait → List Call → Option Error
  pub patch_condition : Trait → Condition → List Call → Option Error
  -- ctrl.SetControllerReference: an error, or the object with the reference
  pub own : Trait → CronHpa → Result Error CronHpa
  -- the parts of GetObjectKind().GroupVersionKind()
  pub group : Unstructured → String
  pub version : Unstructured → String
  -- v1beta1.SchemeGroupVersion.String()
  pub cron_hpa_api_version : String
